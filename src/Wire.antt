-- ===== src/Wire.antt =====
-- The vocabulary of the packets: tftp/include/tftp.h and the tables at the top of tftp/src/tftp.c.
pub mod Packet
pub mod Options
pub mod Request
use file_transfer_over_udp.Prelude.{
  ℕ, ◌+◌, ◌*◌, ◌/◌, ◌%◌, ◌<◌, ◌≡◌, [], ◌∷◌, ◌==◌, if◌then◌else◌, arith,
}
use file_transfer_over_udp.Prelude.Words.{Bytes, u16, u16_mod}
use file_transfer_over_udp.Prelude.Text.{codes, byte_at}

-- `tftp_request_packet_max_size` less the opcode: the `padding` of a request packet.
abbrev pub padding_size : ℕ
padding_size = 510

abbrev pub request_packet_max_size : ℕ
request_packet_max_size = 512

abbrev pub default_blksize : ℕ
default_blksize = 512

-- `enum tftp_opcode`, a `uint16_t`, so a packet may hold any other number too.
pub data Opcode : Type 0 where
  rrq wrq block ack error oack : Opcode
  other : ℕ → Opcode

pub opcode_of : ℕ → Opcode
opcode_of n =
    if n == 1
    then rrq
    else if n == 2
    then wrq
    else if n == 3
    then block
    else if n == 4
    then ack
    else if n == 5
    then error
    else if n == 6
    then oack
    else other n

abbrev pub opcode_number : Opcode → ℕ
opcode_number rrq = 1
opcode_number wrq = 2
opcode_number block = 3
opcode_number ack = 4
opcode_number error = 5
opcode_number oack = 6
opcode_number (other n) = n

-- `enum tftp_error_code`; an error packet may hold any 16-bit number.
pub data ErrorCode : Type 0 where
  not_defined file_not_found access_violation disk_full illegal_operation : ErrorCode
  unknown_transfer_id file_already_exists no_such_user invalid_options : ErrorCode

abbrev pub error_number : ErrorCode → ℕ
error_number not_defined = 0
error_number file_not_found = 1
error_number access_violation = 2
error_number disk_full = 3
error_number illegal_operation = 4
error_number unknown_transfer_id = 5
error_number file_already_exists = 6
error_number no_such_user = 7
error_number invalid_options = 8

-- The messages of the table `tftp_error_packet_info`; there is none for `TFTP_ERROR_NOT_DEFINED`.
abbrev pub error_text : ErrorCode → Bytes
error_text not_defined = []
error_text file_not_found = codes "File not found."
error_text access_violation = codes "Access violation."
error_text disk_full = codes "Disk full or allocation exceeded."
error_text illegal_operation = codes "Illegal TFTP operation."
error_text unknown_transfer_id = codes "Unknown transfer ID."
error_text file_already_exists = codes "File already exists."
error_text no_such_user = codes "No such user."
error_text invalid_options = codes "Invalid options."

-- `enum tftp_mode` and `tftp_mode_str`.
pub data Mode : Type 0 where
  octet netascii invalid : Mode

abbrev pub mode_text : Mode → Bytes
mode_text octet = codes "octet"
mode_text netascii = codes "netascii"
mode_text invalid = codes "invalid"

-- `htons` as the two bytes that it stores, and `ntohs` of two bytes.
abbrev pub to_be16 : ℕ → Bytes
to_be16 n = u16 n / 256 ∷ u16 n % 256 ∷ []

abbrev pub of_be16 : ℕ → ℕ → ℕ
of_be16 hi lo = hi * 256 + lo

pub of_be16-to_be16 : (n : ℕ) → n < u16_mod → of_be16 (u16 n / 256) (u16 n % 256) ≡ n
of_be16-to_be16 n h = omega arith

-- `ntohs(*(uint16_t *) &packet[i])`.
abbrev pub word_at : Bytes → ℕ → ℕ
word_at packet i = of_be16 (byte_at packet i) (byte_at packet (i + 1))

-- `tftp_get_opcode_unsafe`.
unfoldable pub get_opcode : Bytes → Opcode
unfolding opcode_of
get_opcode packet = opcode_of (of_be16 (byte_at packet 0) (byte_at packet 1))
