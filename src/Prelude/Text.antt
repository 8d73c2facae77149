-- ===== src/Prelude/Text.antt =====
-- C strings. A string value is the list of its bytes before the terminator; a block of memory is the
-- list of bytes from a pointer on, and a string that starts there ends at the first 0.
use Prim.Native.Char.{code}
use Prim.Native.String.{String}
use Prim.Native.Nat.{ℕ, zero, suc, ◌+◌, ◌-◌, ◌≤◌}
use mathlib.Core.Bool.{Bool, true, false, ◌&&◌}
use mathlib.Core.List.{[], ◌∷◌, ◌++◌}
use mathlib.Core.Logic.{◌↔◌, ◌≢◌}
use mathlib.Core.Path.{◌≡◌, refl}
use native.Mathlib.Omega.{arith}
use file_transfer_over_udp.Prelude.Tests.{leb, ◌==◌, if◌then◌else◌}
use file_transfer_over_udp.Prelude.Lists.{length}
use file_transfer_over_udp.Prelude.Words.{Bytes}

-- The code points of a literal: its bytes, as every literal here is ASCII.
abbrev pub codes : String → Bytes
codes String.[] = []
codes (String.◌∷◌ c s) = code c ∷ codes s

-- The string that starts at a pointer, and its length (`strlen`).
unfoldable pub cstring : Bytes → Bytes
cstring [] = []
cstring (c ∷ s) = if c == 0 then [] else c ∷ cstring s

abbrev pub strlen : Bytes → ℕ
strlen s = length (cstring s)

-- The memory behind the string at a pointer and its terminator, `&s[strlen(s) + 1]`.
unfoldable pub after_string : Bytes → Bytes
after_string [] = []
after_string (c ∷ s) = if c == 0 then s else after_string s

-- A byte of memory; what is not in the list reads as 0.
abbrev pub byte_at : Bytes → ℕ → ℕ
byte_at [] i = 0
byte_at (c ∷ s) zero = c
byte_at (c ∷ s) (suc i) = byte_at s i

-- `tolower` of the C locale.
abbrev pub to_lower : ℕ → ℕ
to_lower c = if leb b'A' c && leb c b'Z' then c + 32 else c

-- `strcmp(a, b) == 0` on string values.
unfoldable pub text_eq : Bytes → Bytes → Bool
text_eq [] [] = true
text_eq (x ∷ a) (y ∷ b) = x == y && text_eq a b
text_eq _ _ = false

-- `strcasecmp(a, b) == 0` on string values.
unfoldable pub text_eq_fold : Bytes → Bytes → Bool
text_eq_fold [] [] = true
text_eq_fold (x ∷ a) (y ∷ b) = to_lower x == to_lower y && text_eq_fold a b
text_eq_fold _ _ = false

-- A string value holds no terminator.
abbrev pub IsText : Bytes → Type 0
IsText [] = Unit
IsText (c ∷ s) = (c ≢ 0) × IsText s

pub cstring-append : (s rest : Bytes) → IsText s → cstring (s ++ 0 ∷ rest) ≡ s
unfolding cstring
cstring-append [] rest h = refl
cstring-append (c ∷ s) rest h = ground (arith, cstring-append s rest h.1)

pub cstring_text : (s : Bytes) → IsText s → cstring s ≡ s
unfolding cstring
cstring_text [] h = refl
cstring_text (c ∷ s) h = ground (arith, cstring_text s h.1)

pub cstring-IsText : (s : Bytes) → IsText (cstring s)
unfolding cstring
cstring-IsText [] = tt
cstring-IsText (c ∷ s) = ground (arith, cstring-IsText s)

pub length-cstring-le : (s : Bytes) → strlen s ≤ length s
unfolding cstring
length-cstring-le [] = omega arith
length-cstring-le (c ∷ s) = ground (arith, length-cstring-le s)

pub after_string-append : (s rest : Bytes) → IsText s → after_string (s ++ 0 ∷ rest) ≡ rest
unfolding after_string
after_string-append [] rest h = refl
after_string-append (c ∷ s) rest h = ground (arith, after_string-append s rest h.1)

pub length-after_string : (s : Bytes) → length (after_string s) ≡ length s - (strlen s + 1)
unfolding after_string cstring
length-after_string [] = omega arith
length-after_string (c ∷ s) = ground (arith, length-after_string s)

pub text_eq_iff : (a b : Bytes) → (text_eq a b ≡ true) ↔ (a ≡ b)
unfolding text_eq
text_eq_iff (x ∷ a) (y ∷ b) = ground (arith, text_eq_iff a b)
text_eq_iff _ _ = ground arith

pub text_eq_fold_refl : (a : Bytes) → text_eq_fold a a ≡ true
unfolding text_eq_fold
text_eq_fold_refl [] = refl
text_eq_fold_refl (x ∷ a) = ground (arith, text_eq_fold_refl a)
