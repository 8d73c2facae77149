-- ===== src/Wire/Options/Valid.antt =====
-- The options that `tftp_parse_options` stores are in range.
use file_transfer_over_udp.Prelude.{
  ℕ, zero, suc, ◌≤◌, ◌≡◌, ◌⊎◌, inr, refl, Bool, true, false, Option, none, some, ltb, if◌then◌else◌,
  arith,
}
use file_transfer_over_udp.Prelude.Words.{Bytes}
use file_transfer_over_udp.Prelude.Text.{codes, cstring, after_string, text_eq_fold}
use file_transfer_over_udp.Wire.Options.{
  OptionKind, blksize, timeout, tsize, windowsize, read_type, kinds, TftpOption, Options, set,
  no_options, accepted_value, find_kind, store_option, parse_from, parsed, parse_options,
}
use file_transfer_over_udp.Wire.Options.Number.{strtoul}
use file_transfer_over_udp.Wire.Options.Within.{strtoul-skip}

-- What may stand in an option that is active.
abbrev pub IsValue : OptionKind → Bytes → Type 0
IsValue blksize v = (8 ≤ (strtoul v).value) × ((strtoul v).value ≤ 65464)
IsValue timeout v =
    (text_eq_fold v (codes "adaptive") ≡ true)
    ⊎ ((1 ≤ (strtoul v).value) × ((strtoul v).value ≤ 255))
IsValue tsize v = Unit
IsValue windowsize v = (1 ≤ (strtoul v).value) × ((strtoul v).value ≤ 65535)
IsValue read_type v = Unit

abbrev pub IsValid : OptionKind → TftpOption → Type 0
IsValid o t = t.is_active ≡ true → IsValue o t.value

pub record AreValid (os : Options) : Type 0 where
  pub is_blksize : IsValid blksize os.blksize_option
  pub is_timeout : IsValid timeout os.timeout_option
  pub is_windowsize : IsValid windowsize os.windowsize_option

accepted_value-IsValue :
    (o : OptionKind) (val v : Bytes) → accepted_value o val ≡ some v → IsValue o v
unfolding accepted_value
accepted_value-IsValue blksize val v e =
    let bounds = strtoul-skip 8 65464 val in ground (arith, bounds)
accepted_value-IsValue timeout val v e =
    let bounds = strtoul-skip 1 255 val in inr (ground (arith, bounds))
accepted_value-IsValue tsize val v e = tt
accepted_value-IsValue windowsize val v e =
    let bounds = strtoul-skip 1 65535 val in ground (arith, bounds)
accepted_value-IsValue read_type val v e = tt

pub set-AreValid :
    (os : Options) (o : OptionKind) (new : TftpOption)
    → AreValid os
    → IsValid o new
    → AreValid (set os o new)
set-AreValid os blksize new h k = record {
  is_blksize = k;
  is_timeout = h.is_timeout;
  is_windowsize = h.is_windowsize;
}
set-AreValid os timeout new h k = record {
  is_blksize = h.is_blksize;
  is_timeout = k;
  is_windowsize = h.is_windowsize;
}
set-AreValid os windowsize new h k = record {
  is_blksize = h.is_blksize;
  is_timeout = h.is_timeout;
  is_windowsize = k;
}
set-AreValid os tsize new h k = record {
  is_blksize = h.is_blksize;
  is_timeout = h.is_timeout;
  is_windowsize = h.is_windowsize;
}
set-AreValid os read_type new h k = record {
  is_blksize = h.is_blksize;
  is_timeout = h.is_timeout;
  is_windowsize = h.is_windowsize;
}

store-AreValid :
    (os : Options) (o : OptionKind) (val : Bytes) (v : Option Bytes)
    → accepted_value o val ≡ v
    → AreValid os
    → AreValid (elim v [ none ↦ os | some x ↦ set os o (record { is_active = true; value = x }) ])
store-AreValid os o val none e h = h
store-AreValid os o val (some x) e h = set-AreValid os o _ h (λ a. accepted_value-IsValue o val x e)

store_option-AreValid :
    (os : Options) (name val : Bytes) → AreValid os → AreValid (store_option os name val)
unfolding store_option
store_option-AreValid os name val h = by_kind (find_kind kinds name)
  where
    by_kind :
        (k : Option OptionKind)
        → AreValid (elim k [
          | none ↦ os
          | some o ↦ elim (accepted_value o val) [
            | none ↦ os
            | some v ↦ set os o (record { is_active = true; value = v })
          ]
        ])
    by_kind none = h
    by_kind (some o) = store-AreValid os o val (accepted_value o val) refl h

pub if-AreValid :
    (b : Bool) (os other : Options)
    → AreValid os
    → AreValid other
    → AreValid (if b then os else other)
if-AreValid true os other h k = h
if-AreValid false os other h k = k

abbrev EndsValid : Option Options → Type 0
EndsValid none = Unit
EndsValid (some os) = AreValid os

EndsValid-if :
    (b : Bool) (x y : Option Options) → EndsValid x → EndsValid y → EndsValid (if b then x else y)
EndsValid-if true x y h k = h
EndsValid-if false x y h k = k

parse_from-EndsValid :
    (fuel left : ℕ) (mem : Bytes) (os : Options)
    → AreValid os
    → EndsValid (parse_from fuel left mem os)
unfolding parse_from
parse_from-EndsValid zero left mem os h = EndsValid-if (ltb 1 left) none (some os) tt h
parse_from-EndsValid (suc fuel) left mem os h =
    EndsValid-if (ltb 1 left) _ (some os)
      (parse_from-EndsValid fuel _ _ _
        (store_option-AreValid os (cstring mem) (cstring (after_string mem)) h))
      h

parsed-AreValid :
    (os : Options) (r : Option Options) → AreValid os → EndsValid r → AreValid (parsed os r)
parsed-AreValid os none h k = h
parsed-AreValid os (some result) h k = k

pub parse_options-AreValid :
    (os : Options) (n : ℕ) (mem : Bytes) → AreValid os → AreValid (parse_options os n mem)
unfolding parse_options
parse_options-AreValid os n mem h = parsed-AreValid os _ h (parse_from-EndsValid n n mem os h)

pub no_options-AreValid : AreValid no_options
no_options-AreValid = record { is_blksize = λ a. cc; is_timeout = λ a. cc; is_windowsize = λ a. cc }
