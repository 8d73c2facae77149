-- ===== src/Wire/Request.antt =====
-- Requests, from tftp/src/tftp.c: `tftp_rrq_packet_init`, `tftp_wrq_packet_init`,
-- `tftp_encode_request`, `tftp_decode_request` and `tftp_get_mode`.
pub mod RoundTrip
use file_transfer_over_udp.Prelude.{
  ℕ, ◌+◌, ◌-◌, Bool, true, false, ◌||◌, Option, none, some, List, [], ◌∷◌, ◌++◌, length, drop, ltb,
  ◌==◌, if◌then◌else◌,
}
use file_transfer_over_udp.Prelude.Words.{Bytes, sub_size}
use file_transfer_over_udp.Prelude.Text.{codes, cstring, strlen, after_string, text_eq_fold}
use file_transfer_over_udp.Wire.{
  Opcode, rrq, wrq, opcode_number, Mode, octet, netascii, invalid, mode_text, padding_size,
  request_packet_max_size, to_be16, get_opcode,
}
use file_transfer_over_udp.Wire.Options.{OptionKind, kinds, option_name, Options, get, option_bytes}

infixl 5 ◌>>=◌
abbrev ◌>>=◌ : Option Bytes → (Bytes → Option Bytes) → Option Bytes
none >>= f = none
some a >>= f = f a

-- One round of the loop over the options: the bytes used so far, with the option behind them if it is
-- active. `none` is the return of -1, where the option does not fit.
append_option : Options → OptionKind → Bytes → Option Bytes
unfolding option_bytes
append_option os o out =
    if (get os o).is_active
    then (if ltb (padding_size - length out)
          (length (option_name o) + 1 + length (get os o).value + 1)
        then none
        else some (out ++ option_bytes os o))
    else some out

unfoldable pub append_options : Options → List OptionKind → Bytes → Option Bytes
unfolding append_option
append_options os [] out = some out
append_options os (o ∷ rest) out = do out' ← append_option os o out; append_options os rest out'

-- What stands in front of the options: file name and mode, each with its terminator.
abbrev pub name_and_mode : Bytes → Mode → Bytes
name_and_mode filename mode = filename ++ 0 ∷ (mode_text mode ++ 0 ∷ [])

-- The guard of the three functions; `filename` is the array of `n` bytes that they are given, so
-- `filename_len == n` says that no terminator stands in it.
abbrev is_too_long : Bytes → Mode → Bool
is_too_long filename mode =
    strlen filename == length filename
    || ltb padding_size (strlen filename + 1 + length (mode_text mode) + 1)

-- `tftp_rrq_packet_init` and `tftp_wrq_packet_init`, which differ in the opcode only: the bytes of the
-- packet, as many as the function returns, or `none` for -1.
unfoldable pub request_packet_init : Opcode → Bytes → Mode → Options → Option Bytes
unfolding append_options cstring
request_packet_init opcode filename mode os = if is_too_long filename mode then none else do
  padding ← append_options os kinds (name_and_mode (cstring filename) mode)
  some (to_be16 (opcode_number opcode) ++ padding)

pub data CreateRequest : Type 0 where
  success : Bytes → CreateRequest
  invalid_mode truncated_filename : CreateRequest

-- `tftp_encode_request`, which writes no options; `is_read` is `type == TFTP_REQUEST_READ`.
unfoldable pub encode_request : Bool → Bytes → Mode → CreateRequest
unfolding cstring
encode_request is_read filename invalid = invalid_mode
encode_request is_read filename mode =
    if is_too_long filename mode
    then truncated_filename
    else success (
        to_be16 (opcode_number (if is_read then rrq else wrq))
        ++ name_and_mode (cstring filename) mode)

-- `tftp_get_mode`: the names of the modes, in any case.
unfoldable pub get_mode : Bytes → Mode
unfolding text_eq_fold
get_mode text =
    if text_eq_fold text (codes "octet")
    then octet
    else if text_eq_fold text (codes "netascii")
    then netascii
    else invalid

pub data RequestError : Type 0 where
  max_size_exceeded not_a_request bad_filename bad_mode : RequestError

-- `struct tftp_request`; `read_beyond` stands for a read past the end of the packet.
pub data Request : Type 0 where
  read write : Bytes → Mode → Request
  refused : RequestError → Request
  read_beyond : Request

-- The mode at `mode_ptr`. Without a terminator in the packet `strnlen` gives all that is left, and the
-- test `mode_ptr[mode_len] != '\\0'` reads the byte behind the packet.
unfoldable pub decode_mode : Bool → Bytes → Bytes → Request
decode_mode is_read filename mode_ptr =
    if strlen mode_ptr == length mode_ptr then read_beyond else elim (get_mode (cstring mode_ptr)) [
      | invalid ↦ refused bad_mode
      | mode ↦ if is_read then read filename mode else write filename mode
    ]

-- From the file name on. Where no terminator ends it, `data_to_parse_size -= filename_len + 1` wraps.
unfoldable pub decode_filename : Bool → Bytes → Request
decode_filename is_read filename_ptr =
    if strlen filename_ptr == 0 || ltb (sub_size (length filename_ptr) 3) (strlen filename_ptr)
    then refused bad_filename
    else if strlen filename_ptr == length filename_ptr
    then read_beyond
    else decode_mode is_read (cstring filename_ptr) (after_string filename_ptr)

-- `tftp_decode_request`.
unfoldable pub decode_request : Bytes → Request
unfolding get_opcode
decode_request packet =
    if ltb request_packet_max_size (length packet)
    then refused max_size_exceeded
    else if ltb (length packet) 2
    then read_beyond
    else elim (get_opcode packet) [
      | rrq ↦ decode_filename true (drop 2 packet)
      | wrq ↦ decode_filename false (drop 2 packet)
      | _ ↦ refused not_a_request
    ]
