-- ===== src/Wire/Options/Number.antt =====
-- The functions of the C library by which an option's value is read: `isspace`, and `strtoul` and
-- `strtoull` at base 10, both over 64 bits.
use file_transfer_over_udp.Prelude.{
  ℕ, ◌+◌, ◌-◌, ◌*◌, Bool, true, false, ◌&&◌, ◌||◌, [], ◌∷◌, ltb, leb, ◌==◌, if◌then◌else◌,
}
use file_transfer_over_udp.Prelude.Words.{Bytes, size_mod, sub_size}

abbrev pub is_space : ℕ → Bool
is_space c = c == 32 || (leb 9 c && leb c 13)

abbrev pub is_digit : ℕ → Bool
is_digit c = leb b'0' c && leb c b'9'

-- The value, the text behind the number (`*endptr`), and whether `errno` is `ERANGE`.
pub record Number : Type 0 where
  pub value : ℕ
  pub rest : Bytes
  pub out_of_range : Bool

unfoldable pub skip_space : Bytes → Bytes
skip_space [] = []
skip_space (c ∷ s) = if is_space c then skip_space s else c ∷ s

-- The digits at the front, behind those that make up `acc`.
unfoldable pub digits_value : ℕ → Bytes → ℕ
digits_value acc [] = acc
digits_value acc (c ∷ s) = if is_digit c then digits_value (acc * 10 + (c - b'0')) s else acc

unfoldable pub skip_digits : Bytes → Bytes
skip_digits [] = []
skip_digits (c ∷ s) = if is_digit c then skip_digits s else c ∷ s

abbrev starts_with_digit : Bytes → Bool
starts_with_digit [] = false
starts_with_digit (c ∷ s) = is_digit c

-- The number behind the sign; without a digit nothing is converted, and the rest is the whole text.
unfoldable pub unsigned_number : Bool → Bytes → Bytes → Number
unfolding digits_value skip_digits
unsigned_number negative whole s =
    let v = digits_value 0 s in
    if starts_with_digit s
    then (if ltb v size_mod
        then record {
          value = if negative then sub_size 0 v else v;
          rest = skip_digits s;
          out_of_range = false;
        }
        else record { value = size_mod - 1; rest = skip_digits s; out_of_range = true })
    else record { value = 0; rest = whole; out_of_range = false }

unfoldable pub signed_number : Bytes → Bytes → Number
unfolding unsigned_number
signed_number whole [] = unsigned_number false whole []
signed_number whole (c ∷ s) =
    if c == b'-'
    then unsigned_number true whole s
    else if c == b'+'
    then unsigned_number false whole s
    else unsigned_number false whole (c ∷ s)

unfoldable pub strtoul : Bytes → Number
unfolding signed_number skip_space
strtoul s = signed_number s (skip_space s)

-- `while (isspace(*val) || *val == '+') val++`.
unfoldable pub skip_blank_or_plus : Bytes → Bytes
skip_blank_or_plus [] = []
skip_blank_or_plus (c ∷ s) = if is_space c || c == b'+' then skip_blank_or_plus s else c ∷ s
