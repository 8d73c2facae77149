-- ===== src/Wire/Packet.antt =====
-- Packets other than requests, from tftp/src/tftp.c: `tftp_encode_error`, `tftp_encode_data`,
-- `tftp_encode_ack`, `tftp_data_packet_init`, `tftp_ack_packet_init`, the table
-- `tftp_error_packet_info`, and `tftp_parse_packet`.
pub mod RoundTrip
use file_transfer_over_udp.Prelude.{
  ℕ, zero, suc, ◌-◌, Option, none, some, [], ◌∷◌, ◌++◌, length, take, drop, ltb, if◌then◌else◌,
}
use file_transfer_over_udp.Prelude.Words.{Bytes}
use file_transfer_over_udp.Prelude.Text.{cstring}
use file_transfer_over_udp.Wire.{
  Opcode, rrq, wrq, block, ack, error, opcode_number, ErrorCode, error_number, error_text, to_be16,
  word_at, get_opcode,
}

-- `tftp_data_packet_init`: the header of a DATA packet; the caller adds the data behind it.
unfoldable pub data_packet_init : ℕ → Bytes
data_packet_init block_number = to_be16 (opcode_number block) ++ to_be16 block_number

-- `tftp_ack_packet_init` and `tftp_encode_ack`.
unfoldable pub encode_ack : ℕ → Bytes
encode_ack block_number = to_be16 (opcode_number ack) ++ to_be16 block_number

-- `tftp_encode_data`. The packet has room for 512 bytes of data: `none` is a copy past its end.
unfoldable pub encode_data : ℕ → Bytes → Option Bytes
encode_data block_number payload =
    if ltb 512 (length payload)
    then none
    else some (to_be16 (opcode_number block) ++ to_be16 block_number ++ payload)

-- The bytes of an ERROR packet: header, message and terminator. So `error_packet_init` of
-- session.c builds it, and so stands each entry of `tftp_error_packet_info`.
unfoldable pub error_packet : ℕ → Bytes → Bytes
error_packet number message = to_be16 (opcode_number error) ++ to_be16 number ++ message ++ 0 ∷ []

-- `tftp_error_packet_info[code]`; the entry of `TFTP_ERROR_NOT_DEFINED` is null.
unfoldable pub error_packet_info : ErrorCode → Option Bytes
error_packet_info ErrorCode.not_defined = none
error_packet_info code = some (error_packet (error_number code) (error_text code))

pub zeros : ℕ → Bytes
zeros zero = []
zeros (suc n) = 0 ∷ zeros n

-- `tftp_encode_error`: the whole `struct tftp_packet`, whose message array of 512 bytes is filled with
-- zeros and takes at most 511 bytes of the message.
unfoldable pub encode_error : ℕ → Bytes → Bytes
unfolding zeros
encode_error number message =
    let text = take 511 (cstring message) in
    to_be16 (opcode_number error) ++ to_be16 number ++ text ++ zeros (512 - length text)

-- What `tftp_parse_packet` does to `*packet`. `overrun` stands for a copy past the end of its arrays,
-- of which the code has no check, and `untouched` for a return of `true` that stores nothing.
pub data Parsed : Type 0 where
  refused overrun untouched : Parsed
  request : Opcode → Bytes → Parsed
  numbered : Opcode → ℕ → Bytes → Parsed

-- The copy into an array of `room` bytes.
copied : ℕ → Bytes → Parsed → Parsed
copied room source result = if ltb room (length source) then overrun else result

-- `tftp_parse_packet`. Its `numbered` results hold the block number or the error code.
unfoldable pub parse_packet : Bytes → Parsed
unfolding copied
parse_packet packet = if ltb (length packet) 4 then refused else elim (get_opcode packet) [
  | rrq ↦ copied 510 (drop 2 packet) (request rrq (drop 2 packet))
  | wrq ↦ copied 510 (drop 2 packet) (request wrq (drop 2 packet))
  | block ↦ copied 512 (drop 4 packet) (numbered block (word_at packet 2) (drop 4 packet))
  | ack ↦ numbered ack (word_at packet 2) []
  | error ↦
      if ltb (length packet) 5
      then refused
      else copied 512 (drop 4 packet) (numbered error (word_at packet 2) (drop 4 packet))
  | _ ↦ untouched
]
