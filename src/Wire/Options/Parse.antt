-- ===== src/Wire/Options/Parse.antt =====
-- `tftp_parse_options` on the option strings that this code writes.
use mathlib.Core.List.{append_assoc}
use file_transfer_over_udp.Prelude.{
  ℕ, zero, suc, ◌+◌, ◌-◌, ◌≤◌, ◌<◌, ◌≡◌, refl, ap, ◌∙◌, inl, inr, true, false, Bool-cases, none,
  some, List, [], ◌∷◌, ◌++◌, length, length-append, if◌then◌else◌, arith,
}
use file_transfer_over_udp.Prelude.Words.{Bytes}
use file_transfer_over_udp.Prelude.Text.{IsText, cstring-append, after_string-append, text_eq_fold}
use file_transfer_over_udp.Wire.Options.{
  OptionKind, blksize, timeout, tsize, windowsize, read_type, kinds, option_name, TftpOption,
  Options, get, set, inactive, no_options, option_bytes, options_bytes, accepted_value, find_kind,
  store_option, parse_from, parsed, parse_options,
}

-- What the parser keeps of an option that a request carries: the value that its check gives, if the
-- option is there and its value passes.
abbrev pub read_back : OptionKind → TftpOption → TftpOption
read_back o opt =
    if opt.is_active
    then (elim (accepted_value o opt.value) [
      | none ↦ inactive
      | some v ↦ record { is_active = true; value = v }
    ])
    else inactive

-- A request's option strings are texts.
abbrev pub AreTexts : Options → List OptionKind → Type 0
AreTexts os [] = Unit
AreTexts os (o ∷ ks) = IsText (get os o).value × AreTexts os ks

-- Storing in the order of the kinds.
store_all : Options → List OptionKind → Options → Options
store_all os [] acc = acc
store_all os (o ∷ ks) acc =
    store_all os ks
      (if (get os o).is_active then store_option acc (option_name o) (get os o).value else acc)

option_name-IsText : (o : OptionKind) → IsText (option_name o)
option_name-IsText blksize = omega arith
option_name-IsText timeout = omega arith
option_name-IsText tsize = omega arith
option_name-IsText windowsize = omega arith
option_name-IsText read_type = omega arith

-- One round of the loop, over a name and a value.
parse_from_step :
    (fuel : ℕ) (name val rest : Bytes) (left : ℕ) (acc : Options)
    → IsText name
    → IsText val
    → 1 < left
    → parse_from (suc fuel) left (name ++ 0 ∷ (val ++ 0 ∷ rest)) acc
      ≡ parse_from fuel
          (left - (length name + 1 + (length val + 1)))
          rest
          (store_option acc name val)
unfolding parse_from
parse_from_step fuel name val rest left acc hn hv h =
    rw
      (
        cstring-append name (val ++ 0 ∷ rest) hn,
        after_string-append name (val ++ 0 ∷ rest) hn,
        cstring-append val rest hv,
        after_string-append val rest hv,
      )
      (ground arith)

parse_from-active :
    (os : Options) (o : OptionKind) (fuel left : ℕ) (mem : Bytes) (acc : Options)
    → (get os o).is_active ≡ true
    → IsText (get os o).value
    → parse_from (suc fuel) (length (option_bytes os o) + left) (option_bytes os o ++ mem) acc
      ≡ parse_from fuel left mem (store_option acc (option_name o) (get os o).value)
unfolding option_bytes
parse_from-active os o fuel left mem acc active h =
    rw
      (
        active,
        append_assoc (option_name o) (0 ∷ ((get os o).value ++ 0 ∷ [])) mem,
        append_assoc (get os o).value (0 ∷ []) mem,
      )
      (parse_from_step fuel (option_name o) (get os o).value mem _ acc (option_name-IsText o) h
          (omega (arith, measured))
        ∙ ap (λ n. parse_from fuel n mem (store_option acc (option_name o) (get os o).value))
            (omega (arith, measured)))
  where
    measured :
        length (option_name o ++ 0 ∷ ((get os o).value ++ 0 ∷ []))
        ≡ length (option_name o) + 1 + (length (get os o).value + 1)
    measured = omega (
      arith,
      length-append (option_name o) (0 ∷ ((get os o).value ++ 0 ∷ [])),
      length-append (get os o).value (0 ∷ []),
    )

option_bytes_inactive :
    (os : Options) (o : OptionKind) → (get os o).is_active ≡ false → option_bytes os o ≡ []
unfolding option_bytes
option_bytes_inactive os o e = rw e

length-option_bytes :
    (os : Options) (o : OptionKind) → (get os o).is_active ≡ true → 0 < length (option_bytes os o)
unfolding option_bytes
length-option_bytes os o e =
    rw e (omega (arith, length-append (option_name o) (0 ∷ ((get os o).value ++ 0 ∷ []))))

parse_from_end : (fuel : ℕ) (mem : Bytes) (acc : Options) → parse_from fuel 0 mem acc ≡ some acc
unfolding parse_from
parse_from_end zero mem acc = refl
parse_from_end (suc fuel) mem acc = refl

parse_from-store_all :
    (os : Options) (ks : List OptionKind) (fuel : ℕ) (behind : Bytes) (acc : Options)
    → AreTexts os ks
    → length (options_bytes os ks) ≤ fuel
    → parse_from fuel (length (options_bytes os ks)) (options_bytes os ks ++ behind) acc
      ≡ some (store_all os ks acc)
unfolding options_bytes store_all
parse_from-store_all os [] fuel behind acc h f = parse_from_end fuel behind acc
parse_from-store_all os (o ∷ ks) zero behind acc h f = elim (Bool-cases (get os o).is_active) [
  | inl active ↦ absurd (
      omega (
        arith,
        length-option_bytes os o active,
        length-append (option_bytes os o) (options_bytes os ks),
      ))
  | inr gone ↦
      rw (gone, option_bytes_inactive os o gone)
        (parse_from-store_all os ks zero behind acc h.1 (rw (option_bytes_inactive os o gone) at f))
]
parse_from-store_all os (o ∷ ks) (suc k) behind acc h f = elim (Bool-cases (get os o).is_active) [
  | inl active ↦
      rw
        (
          active,
          length-append (option_bytes os o) (options_bytes os ks),
          append_assoc (option_bytes os o) (options_bytes os ks) behind,
        )
        (parse_from-active os o k _ _ acc active h.0
          ∙ parse_from-store_all os ks k behind _ h.1 (
              omega (
                arith,
                length-option_bytes os o active,
                length-append (option_bytes os o) (options_bytes os ks),
              )))
  | inr gone ↦
      rw (gone, option_bytes_inactive os o gone)
        (parse_from-store_all os ks (suc k) behind acc h.1
          (rw (option_bytes_inactive os o gone) at f))
]

-- An option is stored over an inactive entry as `read_back` has it.
store_option-read_back :
    (os acc : Options) (o : OptionKind)
    → get acc o ≡ inactive
    → (if (get os o).is_active then store_option acc (option_name o) (get os o).value else acc)
      ≡ set acc o (read_back o (get os o))
unfolding store_option find_kind text_eq_fold
store_option-read_back os acc blksize e = ground arith
store_option-read_back os acc timeout e = ground arith
store_option-read_back os acc tsize e = ground arith
store_option-read_back os acc windowsize e = ground arith
store_option-read_back os acc read_type e = ground arith

-- The options that a request or an OACK carries, whose values have no terminator inside, are read
-- back, whatever stands behind their end: each active option whose value passes its check, with the
-- value that the check gives, and no other.
pub parse_options-options_bytes :
    (os : Options) (behind : Bytes)
    → AreTexts os kinds
    → parse_options no_options (length (options_bytes os kinds)) (options_bytes os kinds ++ behind)
      ≡ record {
        blksize_option = read_back blksize os.blksize_option;
        timeout_option = read_back timeout os.timeout_option;
        tsize_option = read_back tsize os.tsize_option;
        windowsize_option = read_back windowsize os.windowsize_option;
        read_type_option = read_back read_type os.read_type_option;
      }
unfolding parse_options store_all
parse_options-options_bytes os behind h =
    let a = set no_options blksize (read_back blksize os.blksize_option) in
    let b = set a timeout (read_back timeout os.timeout_option) in
    let c = set b tsize (read_back tsize os.tsize_option) in
    let d = set c windowsize (read_back windowsize os.windowsize_option) in
    ap (parsed no_options) (parse_from-store_all os kinds _ behind no_options h (omega arith))
    ∙ rw (
      store_option-read_back os no_options blksize refl,
      store_option-read_back os a timeout refl,
      store_option-read_back os b tsize refl,
      store_option-read_back os c windowsize refl,
      store_option-read_back os d read_type refl,
    )
