-- ===== src/Client/Receive/InOrder.antt =====
-- The file that a read request of the client stores, whatever the order of the packets is.
pub mod Delivery
use mathlib.Core.List.{append-nil, append_assoc}
use file_transfer_over_udp.Prelude.{
  ℕ, ◌+◌, ◌≤◌, ◌<◌, ◌≡◌, refl, sym, ap, ◌∙◌, Bool, true, false, not, ◌&&◌, List, [], ◌∷◌, ◌++◌, map,
  length, take, drop, ltb, ◌==◌, if◌then◌else◌, arith, Bool-cases, inl, inr, take_all,
  length-append,
}
use file_transfer_over_udp.Prelude.Words.{Bytes, u16, u16_mod}
use file_transfer_over_udp.Inet.{Address, sockaddr_equals, has_known_family, sockaddr_equals_iff}
use file_transfer_over_udp.Wire.{get_opcode, block, ack, word_at}
use file_transfer_over_udp.Wire.Packet.{data_packet_init, encode_ack}
use file_transfer_over_udp.Client.{
  Request, Effect, packet_sent, bytes_written, send_to, send_ack, retransmit_last_packet_sent,
}
use file_transfer_over_udp.Client.Receive.{
  Arrival, datagram, Receiver, Progress, going, complete, failed, write_block, on_block, on_data,
  on_server_packet, on_arrival, receive_file,
}

-- A DATA packet of the server.
abbrev pub data_arrival : Address → ℕ × Bytes → Arrival
data_arrival server (n, payload) = datagram server (data_packet_init n ++ payload)

-- What is given to `fwrite`, in order.
abbrev pub stored : List Effect → List Bytes
stored [] = []
stored (packet_sent address packet ∷ rest) = stored rest
stored (bytes_written payload ∷ rest) = payload ∷ stored rest

pub stored-append : (a b : List Effect) → stored (a ++ b) ≡ stored a ++ stored b
stored-append [] b = refl
stored-append (packet_sent address packet ∷ a) b = stored-append a b
stored-append (bytes_written payload ∷ a) b = ap (◌∷◌ payload) (stored-append a b)

-- The blocks that a receiver takes which waits for each block in turn, up to the first one below
-- `size` bytes.
unfoldable pub blocks_in_order : ℕ → ℕ → List (ℕ × Bytes) → List Bytes
blocks_in_order size expected [] = []
blocks_in_order size expected ((n, payload) ∷ rest) =
    let more = blocks_in_order size (u16 (expected + 1)) rest in
    let ignoring = blocks_in_order size expected rest in
    let last : List Bytes = if ltb (length payload) size then [] else more in
    if n == expected then payload ∷ last else ignoring

-- A transfer behind its first packet: the last packet that the client sent is an ACK.
pub record IsTransferring (server : Address) (size room : ℕ) (v : Receiver) : Type 0 where
  pub is_later : v.is_first_receive ≡ false
  pub is_server : v.request.server_addr ≡ server
  pub is_known : has_known_family server ≡ true
  pub is_ack : get_opcode v.request.last_packet_sent ≡ ack
  pub no_failure : v.request.answers ≡ []
  pub has_size : v.request.block_size ≡ size
  pub has_room : v.request.packet_recv_buffer_size ≡ room

abbrev pub sends : Effect → Request → Request
sends e r = record r { effects = r.effects ++ e ∷ []; answers = [] }

-- The receiver after an expected block, and after another one.
abbrev pub taken : ℕ → Bytes → Receiver → Receiver
taken n payload v = record v {
  request =
      record (sends (packet_sent v.request.server_addr (encode_ack n))
        (sends (bytes_written payload) v.request)) {
          file_bytes_transferred = v.request.file_bytes_transferred + length payload;
          last_packet_sent = encode_ack n;
        };
  is_first_receive = false;
  expected_sequence_number = u16 (v.expected_sequence_number + 1);
}

abbrev pub resent : Receiver → Receiver
resent v = record v {
  request = sends (packet_sent v.request.server_addr v.request.last_packet_sent) v.request;
  is_first_receive = false;
}

pub on_block_lem :
    (size n : ℕ) (payload : Bytes) (v : Receiver)
    → get_opcode v.request.last_packet_sent ≡ ack
    → v.request.answers ≡ []
    → v.request.block_size ≡ size
    → on_block n payload v ≡ (
        if n == v.expected_sequence_number
        then (if ltb (length payload) size then complete else going, taken n payload v)
        else (going, resent v))
unfolding on_block write_block send_ack retransmit_last_packet_sent send_to
on_block_lem size n payload v k a e = ground (arith, k, a, e)

pub get_opcode-encode_ack : (n : ℕ) → get_opcode (encode_ack n) ≡ ack
unfolding get_opcode encode_ack
get_opcode-encode_ack n = ground arith

on_server_packet-data :
    (n : ℕ) (payload : Bytes) (v : Receiver)
    → n < u16_mod
    → v.is_first_receive ≡ false
    → on_server_packet (data_packet_init n ++ payload) v ≡ on_block n payload v
unfolding on_server_packet on_data data_packet_init get_opcode
on_server_packet-data n payload v h f = ground (arith, h, f)

length-data_packet :
    (n : ℕ) (payload : Bytes) → length (data_packet_init n ++ payload) ≡ 4 + length payload
unfolding data_packet_init
length-data_packet n payload = omega arith

pub on_arrival-data :
    (server : Address) (size room n : ℕ) (payload : Bytes) (v : Receiver)
    → n < u16_mod
    → 4 + length payload ≤ room
    → IsTransferring server size room v
    → on_arrival (data_arrival server (n, payload)) v
      ≡ on_block n payload (record v { retransmissions = 0 })
unfolding on_arrival
on_arrival-data server size room n payload v h fits w =
    let packet = data_packet_init n ++ payload in
    let size_of = length-data_packet n payload in
    let room_of = w.has_room in
    let whole =
      take_all v.request.packet_recv_buffer_size packet (omega (arith, size_of, room_of, fits)) in
    let same = (sockaddr_equals_iff server server).1 (refl, w.is_known) in
    let later = w.is_later in
    let address = w.is_server in
    let to_block =
      on_server_packet-data n payload (record v { retransmissions = 0 }) h w.is_later in
    ground (arith, size_of, whole, same, later, address, to_block)
