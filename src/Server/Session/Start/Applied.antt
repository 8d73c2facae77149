-- ===== src/Server/Session/Start/Applied.antt =====
-- What the active options of a request do to a session, one after the other.
use mathlib.Core.Path.{subst}
use file_transfer_over_udp.Prelude.{
  ℕ, ◌≤◌, ◌≡◌, ◌⊎◌, inl, inr, refl, sym, Option, none, List, [], ◌∷◌, arith,
}
use file_transfer_over_udp.Prelude.Words.{Bytes}
use file_transfer_over_udp.Wire.Options.{
  OptionKind, blksize, timeout, tsize, windowsize, read_type, kinds,
}
use file_transfer_over_udp.Server.Session.{Session}
use file_transfer_over_udp.Server.Session.Start.{apply_option, apply_options}
use file_transfer_over_udp.Server.Session.Start.Storage.{Places, print_size}
use file_transfer_over_udp.Wire.Options.Valid.{IsValid, AreValid}

-- The size of the file, if there is one to print, goes into a buffer of its own.
abbrev pub IsApart : Option ℕ → Places → Type 0
IsApart size places = (places tsize ≡ none) ⊎ (size ≡ none)

-- Then only the size of the file is written back into the options.
apply_option_keeps :
    (size : Option ℕ) (str : Bytes) (places : Places) (o : OptionKind) (s : Session)
    → IsApart size places
    → let os = (apply_option size str places o s).recognized_options in
      (os.blksize_option ≡ s.recognized_options.blksize_option)
      × (os.timeout_option ≡ s.recognized_options.timeout_option)
      × (os.windowsize_option ≡ s.recognized_options.windowsize_option)
unfolding apply_option print_size
apply_option_keeps size str places blksize s apart = ground arith
apply_option_keeps size str places timeout s apart = ground arith
apply_option_keeps size str places tsize s (inl e) = ground (arith, e)
apply_option_keeps size str places tsize s (inr e) = ground (arith, e)
apply_option_keeps size str places windowsize s apart = ground arith
apply_option_keeps size str places read_type s apart = ground arith

-- The block size and the timeout are read before the size is printed.
apply_option_before :
    (size : Option ℕ) (str : Bytes) (places : Places) (o : OptionKind) (s : Session)
    → (o ≡ blksize) ⊎ (o ≡ timeout)
    → (apply_option size str places o s).recognized_options ≡ s.recognized_options
unfolding apply_option
apply_option_before size str places blksize s h = ground arith
apply_option_before size str places timeout s h = ground arith
apply_option_before size str places tsize s h = ground (arith, h)
apply_option_before size str places windowsize s h = ground arith
apply_option_before size str places read_type s h = ground arith

apply_option-AreValid :
    (size : Option ℕ) (str : Bytes) (places : Places) (o : OptionKind) (s : Session)
    → IsApart size places
    → AreValid s.recognized_options
    → AreValid (apply_option size str places o s).recognized_options
apply_option-AreValid size str places o s apart v =
    let same = apply_option_keeps size str places o s apart in
    record {
      is_blksize = subst (IsValid blksize) (sym same.0) v.is_blksize;
      is_timeout = subst (IsValid timeout) (sym same.1) v.is_timeout;
      is_windowsize = subst (IsValid windowsize) (sym same.2) v.is_windowsize;
    }

-- The ranges of the block size and of the timeout, and of the window.
abbrev pub Sizes : Session → Type 0
Sizes s = (8 ≤ s.block_size) × (s.block_size ≤ 65464) × (1 ≤ s.timeout) × (s.timeout ≤ 255)

abbrev pub Window : Session → Type 0
Window s = (1 ≤ s.window_size) × (s.window_size ≤ 65535)

apply_option-Sizes :
    (size : Option ℕ) (str : Bytes) (places : Places) (o : OptionKind) (s : Session)
    → AreValid s.recognized_options
    → Sizes s
    → Sizes (apply_option size str places o s)
unfolding apply_option
apply_option-Sizes size str places blksize s v h = let b = v.is_blksize in ground (arith, b, h)
apply_option-Sizes size str places timeout s v h = let b = v.is_timeout in ground (arith, b, h)
apply_option-Sizes size str places tsize s v h = ground (arith, h)
apply_option-Sizes size str places windowsize s v h = ground (arith, h)
apply_option-Sizes size str places read_type s v h = ground (arith, h)

apply_option-Window :
    (size : Option ℕ) (str : Bytes) (places : Places) (o : OptionKind) (s : Session)
    → AreValid s.recognized_options
    → Window s
    → Window (apply_option size str places o s)
unfolding apply_option
apply_option-Window size str places blksize s v h = ground (arith, h)
apply_option-Window size str places timeout s v h = ground (arith, h)
apply_option-Window size str places tsize s v h = ground (arith, h)
apply_option-Window size str places windowsize s v h =
    let b = v.is_windowsize in ground (arith, b, h)
apply_option-Window size str places read_type s v h = ground (arith, h)

-- The options behind the block size and the timeout touch neither.
apply_option_after :
    (size : Option ℕ) (str : Bytes) (places : Places) (o : OptionKind) (s : Session)
    → (o ≡ tsize) ⊎ (o ≡ windowsize) ⊎ (o ≡ read_type)
    → Sizes s
    → Sizes (apply_option size str places o s)
unfolding apply_option
apply_option_after size str places blksize s h w = ground (arith, h)
apply_option_after size str places timeout s h w = ground (arith, h)
apply_option_after size str places tsize s h w = ground (arith, w)
apply_option_after size str places windowsize s h w = ground (arith, w)
apply_option_after size str places read_type s h w = ground (arith, w)

pub apply_options-Sizes :
    (size : Option ℕ) (str : Bytes) (places : Places) (s : Session)
    → AreValid s.recognized_options
    → Sizes s
    → Sizes (apply_options size str places kinds s)
unfolding apply_options
apply_options-Sizes size str places s v h =
    let a = apply_option size str places blksize s in
    let b = apply_option size str places timeout a in
    let c = apply_option size str places tsize b in
    let d = apply_option size str places windowsize c in
    let valid = subst AreValid (sym (apply_option_before size str places blksize s (inl refl))) v in
    apply_option_after size str places read_type d (inr (inr refl)) (
      apply_option_after size str places windowsize c (inr (inl refl)) (
        apply_option_after size str places tsize b (inl refl) (
          apply_option-Sizes size str places timeout a valid
            (apply_option-Sizes size str places blksize s v h))))

pub apply_options-Window :
    (size : Option ℕ) (str : Bytes) (places : Places) (l : List OptionKind) (s : Session)
    → IsApart size places
    → AreValid s.recognized_options
    → Window s
    → Window (apply_options size str places l s)
unfolding apply_options
apply_options-Window size str places [] s apart v h = h
apply_options-Window size str places (o ∷ rest) s apart v h =
    apply_options-Window size str places rest (apply_option size str places o s) apart
      (apply_option-AreValid size str places o s apart v)
      (apply_option-Window size str places o s v h)
