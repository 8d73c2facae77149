-- ===== src/Wire/Options/Within.antt =====
-- A value that `tftp_parse_options` accepts reads as the same number when it is used later.
use file_transfer_over_udp.Prelude.{
  ℕ, ◌≤◌, ◌≡◌, refl, ap, ◌∙◌, Bool, true, false, [], ◌∷◌, ◌==◌, arith,
}
use file_transfer_over_udp.Prelude.Words.{Bytes}
use file_transfer_over_udp.Prelude.Text.{text_eq}
use file_transfer_over_udp.Wire.Options.{is_number_within}
use file_transfer_over_udp.Wire.Options.Number.{
  strtoul, signed_number, unsigned_number, skip_space, skip_blank_or_plus, is_digit, is_space,
}

-- The value does not depend on the text that is left where nothing is converted.
unsigned_number-whole :
    (negative : Bool) (a b s : Bytes)
    → (unsigned_number negative a s).value ≡ (unsigned_number negative b s).value
unfolding unsigned_number
unsigned_number-whole negative a b s = ground arith

signed_number-whole : (a b s : Bytes) → (signed_number a s).value ≡ (signed_number b s).value
unfolding signed_number
signed_number-whole a b [] = unsigned_number-whole false a b []
signed_number-whole a b (c ∷ s) =
    let minus = unsigned_number-whole true a b s in
    let plus = unsigned_number-whole false a b s in
    let digits = unsigned_number-whole false a b (c ∷ s) in ground (arith, minus, plus, digits)

strtoul-digit :
    (d : ℕ) (s : Bytes)
    → is_digit d ≡ true
    → strtoul (skip_blank_or_plus (d ∷ s)) ≡ unsigned_number false (d ∷ s) (d ∷ s)
unfolding strtoul signed_number skip_space skip_blank_or_plus
strtoul-digit d s h = ground (arith, h)

-- What follows a `+` that is read starts with a digit.
unsigned_number-digit :
    (whole : Bytes) (d : ℕ) (s : Bytes)
    → text_eq whole [] ≡ false
    → text_eq (unsigned_number false whole (d ∷ s)).rest [] ≡ true
    → is_digit d ≡ true
unfolding unsigned_number
unsigned_number-digit whole d s ne e = ground (arith, ne, e)

unsigned_number-none : (whole : Bytes) → (unsigned_number false whole []).rest ≡ whole
unfolding unsigned_number
unsigned_number-none whole = refl

strtoul-plus :
    (whole s : Bytes)
    → text_eq whole [] ≡ false
    → text_eq (unsigned_number false whole s).rest [] ≡ true
    → (strtoul (skip_blank_or_plus s)).value ≡ (unsigned_number false whole s).value
strtoul-plus whole [] ne e =
    let none_read = unsigned_number-none whole in ground (arith, ne, e, none_read)
strtoul-plus whole (d ∷ s) ne e =
    ap (λ n. n.value) (strtoul-digit d s (unsigned_number-digit whole d s ne e))
    ∙ unsigned_number-whole false (d ∷ s) whole (d ∷ s)

strtoul-front :
    (c : ℕ) (s : Bytes) → is_space c ≡ false → strtoul (c ∷ s) ≡ signed_number (c ∷ s) (c ∷ s)
unfolding strtoul
strtoul-front c s h = ground (arith, h)

signed_number-plus :
    (whole : Bytes) (c : ℕ) (s : Bytes)
    → (c == b'+') ≡ true
    → signed_number whole (c ∷ s) ≡ unsigned_number false whole s
unfolding signed_number
signed_number-plus whole c s h = ground (arith, h)

strtoul-empty : (whole : Bytes) → (strtoul []).value ≡ (signed_number whole []).value
unfolding strtoul skip_space
strtoul-empty whole = signed_number-whole [] whole []

-- Where a number is all of the text, it reads the same behind its blanks and its `+`.
signed_number-skip :
    (whole s : Bytes)
    → text_eq whole [] ≡ false
    → text_eq (signed_number whole (skip_space s)).rest [] ≡ true
    → (strtoul (skip_blank_or_plus s)).value ≡ (signed_number whole (skip_space s)).value
unfolding skip_space skip_blank_or_plus
signed_number-skip whole [] ne e = strtoul-empty whole
signed_number-skip whole (c ∷ s) ne e =
    let later = signed_number-skip whole s in
    let plus = strtoul-plus whole s in
    let front = strtoul-front c s in
    let same = signed_number-whole (c ∷ s) whole (c ∷ s) in
    let sign = signed_number-plus whole c s in ground (arith, ne, e, later, plus, front, same, sign)

-- What the code stores of a number that passes the test of a range, without its blanks and its `+`,
-- is read later as a number in that range.
pub strtoul-skip :
    (lo hi : ℕ) (val : Bytes)
    → is_number_within lo hi val ≡ true
    → (lo ≤ (strtoul (skip_blank_or_plus val)).value)
      × ((strtoul (skip_blank_or_plus val)).value ≤ hi)
unfolding is_number_within strtoul
strtoul-skip lo hi val h = let same = signed_number-skip val val in ground (arith, same)
