-- ===== src/Prelude/Words.antt =====
-- Machine words: a `uint16_t` or a byte is a native number kept below its modulus by `%`.
use Prim.Native.Nat.{ℕ, ◌+◌, ◌-◌, ◌%◌}
use mathlib.Core.List.{List}

abbrev pub u8_mod : ℕ
u8_mod = 256

abbrev pub u16_mod : ℕ
u16_mod = 65536

abbrev pub size_mod : ℕ
size_mod = 18446744073709551616

abbrev pub u8 : ℕ → ℕ
u8 n = n % u8_mod

-- The conversion `(uint16_t) n`.
abbrev pub u16 : ℕ → ℕ
u16 n = n % u16_mod

-- `(uint16_t) (a - b)`: the modulus is added first, since `-` stops at 0.
abbrev pub sub_u16 : ℕ → ℕ → ℕ
sub_u16 a b = (a + u16_mod - b) % u16_mod

-- A subtraction of `size_t` values, with its wrap.
abbrev pub sub_size : ℕ → ℕ → ℕ
sub_size a b = (a + size_mod - b) % size_mod

abbrev pub Bytes : Type 0
Bytes = List ℕ
