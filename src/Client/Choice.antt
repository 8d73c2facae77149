-- ===== src/Client/Choice.antt =====
-- `options_init` of tftp/src/client/client.c: the options that a request asks for, chosen from
-- `struct tftp_client_options` of tftp/include/buracchi/tftp/client.h.
use file_transfer_over_udp.Prelude.{
  ℕ, ◌≤◌, ◌<◌, ◌≡◌, ◌⊎◌, Bool, true, false, not, ◌&&◌, ◌||◌, Option, none, some, [], leb, ◌==◌,
  if◌then◌else◌, arith,
}
use file_transfer_over_udp.Prelude.Words.{u8_mod, u16_mod}
use file_transfer_over_udp.Prelude.Text.{codes}
use file_transfer_over_udp.Wire.{default_blksize}
use file_transfer_over_udp.Wire.Options.{Options}
use file_transfer_over_udp.Server.Session.Start.{decimal}

-- `struct tftp_client_options`; a null pointer is `none`.
pub record ClientOptions : Type 0 where
  pub timeout_s : Option ℕ
  pub block_size : Option ℕ
  pub window_size : Option ℕ
  pub use_tsize : Bool
  pub use_adaptive_timeout : Bool
  pub is_read_type_list : Bool

-- What `options_init` leaves in `struct options`, and its result: whether an option is asked for.
pub record Chosen : Type 0 where
  pub timeout_s : ℕ
  pub block_size : ℕ
  pub window_size : ℕ
  pub use_tsize : Bool
  pub use_adaptive_timeout : Bool
  pub options : Options
  pub use_options : Bool

-- A value that is given and passes its test, or the default.
unfoldable pub value_or : Option ℕ → (ℕ → Bool) → ℕ → ℕ
value_or none is_required default = default
value_or (some n) is_required default = if is_required n then n else default

unfoldable pub is_required : Option ℕ → (ℕ → Bool) → Bool
is_required none test = false
is_required (some n) test = test n

abbrev is_timeout : ℕ → Bool
is_timeout n = not (n == 0)

abbrev is_block_size : ℕ → Bool
is_block_size n = leb 8 n && leb n 65464

abbrev is_window_size : Bool → ℕ → Bool
is_window_size is_get n = not (n == 0) && is_get

-- `options_init` with options that are not null; the flag is `request_type == REQUEST_GET`. A string
-- that is not printed stays empty.
unfoldable pub options_init : Bool → ClientOptions → Chosen
options_init is_get o =
    let timeout = value_or o.timeout_s is_timeout 2 in
    let block_size = value_or o.block_size is_block_size default_blksize in
    let window_size = value_or o.window_size (is_window_size is_get) 1 in
    let has_timeout = is_required o.timeout_s is_timeout in
    let has_block_size = is_required o.block_size is_block_size in
    let has_window_size = is_required o.window_size (is_window_size is_get) in
    let has_adaptive = o.use_adaptive_timeout && is_get in
    record {
      timeout_s = timeout;
      block_size = block_size;
      window_size = window_size;
      use_tsize = o.use_tsize;
      use_adaptive_timeout = o.use_adaptive_timeout;
      options = record {
        blksize_option = record {
          is_active = has_block_size;
          value = if has_block_size then decimal block_size else [];
        };
        timeout_option = record {
          is_active = has_timeout || has_adaptive;
          value =
              if has_adaptive
              then codes "adaptive"
              else if has_timeout
              then decimal timeout
              else [];
        };
        tsize_option = record { is_active = o.use_tsize; value = codes "0" };
        windowsize_option = record {
          is_active = has_window_size;
          value = if has_window_size then decimal window_size else [];
        };
        read_type_option = record { is_active = o.is_read_type_list; value = codes "directory" };
      };
      use_options =
          has_block_size
          || (has_timeout || has_adaptive)
          || o.use_tsize
          || has_window_size
          || o.is_read_type_list;
    }

-- A value of a machine word, where one is given.
abbrev pub IsWord : ℕ → Option ℕ → Type 0
IsWord modulus none = Unit
IsWord modulus (some n) = n < modulus

timeout-bounds :
    (t : Option ℕ)
    → IsWord u8_mod t
    → (1 ≤ value_or t is_timeout 2) × (value_or t is_timeout 2 ≤ 255)
unfolding value_or
timeout-bounds none h = ground arith
timeout-bounds (some n) h = ground arith

block_size-bounds :
    (b : Option ℕ)
    → (8 ≤ value_or b is_block_size default_blksize)
      × (value_or b is_block_size default_blksize ≤ 65464)
      × ((is_required b is_block_size ≡ true)
          ⊎ (value_or b is_block_size default_blksize ≡ default_blksize))
unfolding value_or is_required
block_size-bounds none = ground arith
block_size-bounds (some n) = ground arith

window_size-bounds :
    (is_get : Bool) (w : Option ℕ)
    → IsWord u16_mod w
    → (1 ≤ value_or w (is_window_size is_get) 1)
      × (value_or w (is_window_size is_get) 1 ≤ 65535)
      × ((is_get ≡ true) ⊎ (value_or w (is_window_size is_get) 1 ≡ 1))
      × ((is_required w (is_window_size is_get) ≡ true)
          ⊎ (value_or w (is_window_size is_get) 1 ≡ 1))
unfolding value_or is_required
window_size-bounds is_get none h = ground arith
window_size-bounds is_get (some n) h = ground arith

-- Whatever options are chosen, an 8-bit timeout and a 16-bit window size among them, the transfer
-- starts with a timeout from 1 to 255, a block size from 8 to 65464 and a window size from 1 to
-- 65535, which is 1 in a write request; a block size or a window size that is not asked for has its
-- default.
pub options_init-bounds :
    (is_get : Bool) (o : ClientOptions)
    → IsWord u8_mod o.timeout_s
    → IsWord u16_mod o.window_size
    → let c = options_init is_get o in
      (1 ≤ c.timeout_s)
      × (c.timeout_s ≤ 255)
      × (8 ≤ c.block_size)
      × (c.block_size ≤ 65464)
      × (1 ≤ c.window_size)
      × (c.window_size ≤ 65535)
      × ((is_get ≡ true) ⊎ (c.window_size ≡ 1))
      × ((c.options.blksize_option.is_active ≡ true) ⊎ (c.block_size ≡ default_blksize))
      × ((c.options.windowsize_option.is_active ≡ true) ⊎ (c.window_size ≡ 1))
unfolding options_init
options_init-bounds is_get o ht hw =
    let time = timeout-bounds o.timeout_s ht in
    let block = block_size-bounds o.block_size in
    let window = window_size-bounds is_get o.window_size hw in
    (time.0, time.1, block.0, block.1, window.0, window.1, window.2, block.2, window.3)
