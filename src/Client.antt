-- ===== src/Client.antt =====
-- The state of a transfer in the client (`struct request` of tftp/src/client/client.c) and the packets
-- that it sends: `send_ack`, `send_error`, `retransmit_last_packet_sent`, `handle_unexpected_peer`.
pub mod Choice
pub mod Oack
pub mod Receive
pub mod Send
pub mod Transfer
use file_transfer_over_udp.Prelude.{
  ℕ, ◌+◌, Bool, true, false, ◌||◌, Option, none, some, List, [], ◌∷◌, ◌++◌, ltb, if◌then◌else◌,
}
use file_transfer_over_udp.Prelude.Words.{Bytes}
use file_transfer_over_udp.Wire.{
  Opcode, rrq, wrq, ack, ErrorCode, not_defined, unknown_transfer_id, get_opcode,
}
use file_transfer_over_udp.Wire.Options.{Options}
use file_transfer_over_udp.Wire.Packet.{encode_ack, error_packet_info}
use file_transfer_over_udp.Inet.{Address}

-- What a transfer does to the outside: packets that it sends, and bytes that it gives to `fwrite`.
pub data Effect : Type 0 where
  packet_sent : Address → Bytes → Effect
  bytes_written : Bytes → Effect

-- `struct request` with the parts of `struct options` and of `struct connection` that change. The
-- answers are those of the next calls of `sendto`, `fwrite`, `realloc` and
-- `setsockopt`: whether they succeed; with none left, each does.
pub record Request : Type 0 where
  pub is_get : Bool
  pub retries : ℕ
  pub use_options : Bool
  pub options : Options
  pub timeout_s : ℕ
  pub block_size : ℕ
  pub window_size : ℕ
  pub use_tsize : Bool
  pub tsize : ℕ
  pub use_adaptive_timeout : Bool
  pub last_packet_sent : Bytes
  pub packet_recv_buffer_size : ℕ
  pub server_may_not_support_options : Bool
  pub file_bytes_transferred : ℕ
  pub server_addr : Address
  pub answers : List Bool
  pub effects : List Effect

abbrev pub succeeds : List Bool → Bool
succeeds [] = true
succeeds (b ∷ rest) = b

abbrev pub later : List Bool → List Bool
later [] = []
later (b ∷ rest) = rest

abbrev pub answered : Request → Request
answered r = record r { answers = later r.answers }

-- `sendto` with its test of the result.
unfoldable pub send_to : Address → Bytes → Request → Bool × Request
send_to address packet r =
    if succeeds r.answers
    then (true, record (answered r) { effects = r.effects ++ packet_sent address packet ∷ [] })
    else (false, answered r)

-- `send_ack` with `send_ack_packet`: an ACK that is sent is kept for a retransmission.
unfoldable pub send_ack : ℕ → Request → Bool × Request
send_ack block_number r =
    let (sent, s) = send_to r.server_addr (encode_ack block_number) r in
    if sent then (true, record s { last_packet_sent = encode_ack block_number }) else (false, s)

-- `send_error` with `send_error_packet`. Its result is used by no caller.
unfoldable pub send_error : ErrorCode → Request → Request
send_error code r = elim (error_packet_info code) [
  | none ↦ r
  | some packet ↦ (send_to r.server_addr packet r).1
]

-- `retransmit_last_packet_sent`: only a request and an ACK are ever kept.
unfoldable pub retransmit_last_packet_sent : Request → Bool × Request
retransmit_last_packet_sent r = elim (get_opcode r.last_packet_sent) [
  | rrq ↦ send_to r.server_addr r.last_packet_sent r
  | wrq ↦ send_to r.server_addr r.last_packet_sent r
  | ack ↦ send_to r.server_addr r.last_packet_sent r
  | _ ↦ (false, r)
]

-- `handle_unexpected_peer`: an error to the stranger, whether it can be sent or not.
unfoldable pub handle_unexpected_peer : Address → Request → Request
handle_unexpected_peer address r = elim (error_packet_info unknown_transfer_id) [
  | none ↦ r
  | some packet ↦ (send_to address packet r).1
]

-- `tftp_packet_buffer_size`.
unfoldable pub packet_buffer_size : ℕ → ℕ
packet_buffer_size block_size = if ltb (4 + block_size) 516 then 516 else 4 + block_size
