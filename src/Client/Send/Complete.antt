-- ===== src/Client/Send/Complete.antt =====
-- A write request whose server acknowledges each block: it comes to its end.
use native.Mathlib.Nat.{mod-eq_of_lt}
use file_transfer_over_udp.Prelude.{
  ℕ, zero, suc, ◌+◌, ◌≤◌, ◌<◌, ◌≡◌, refl, ap, ◌∙◌, Bool, true, false, ◌||◌, List, [], ◌∷◌, ◌++◌,
  length, take, drop, ltb, ◌==◌, if◌then◌else◌, arith, take_all,
}
use file_transfer_over_udp.Prelude.Words.{Bytes, u16, u16_mod}
use file_transfer_over_udp.Inet.{Address, sockaddr_equals}
use file_transfer_over_udp.Wire.{ack, get_opcode, word_at}
use file_transfer_over_udp.Wire.Packet.{data_packet_init, encode_ack}
use file_transfer_over_udp.Window.{slot_index, has_room}
use file_transfer_over_udp.Client.{packet_sent, send_to}
use file_transfer_over_udp.Client.Receive.{Progress, datagram, going, complete}
use file_transfer_over_udp.Client.Send.{
  Sender, Turn, waited, overwrite, store, send_block, fill_window, on_ack, on_reply, on_wait,
  on_turn, send_turns,
}
use file_transfer_over_udp.Client.Send.Faithful.{has_room_plain, in_window_plain}

-- A client with a window of one block that has nothing in flight.
pub record IsIdle (server : Address) (size : ℕ) (v : Sender) : Type 0 where
  pub is_server : v.request.server_addr ≡ server
  pub is_known : sockaddr_equals server server ≡ true
  pub has_size : v.request.block_size ≡ size
  pub has_window : v.request.window_size ≡ 1
  pub has_room_for_ack : 4 ≤ v.request.packet_recv_buffer_size
  pub no_failure : v.request.answers ≡ []
  pub is_positive : 0 < v.next_sequence_number
  pub is_empty : v.window_begin ≡ v.next_sequence_number
  pub is_reading : v.end_of_file ≡ false

-- The packet of the next block, and the client behind its `sendto`.
abbrev pub next_packet : Sender → Bytes
next_packet v =
    overwrite (data_packet_init v.next_sequence_number ++ take v.request.block_size v.source)
      (v.data_packets (slot_index v.request.window_size v.next_sequence_number))

abbrev pub block_out : Sender → Sender
block_out v =
    let payload = take v.request.block_size v.source in
    record v {
      request = record v.request {
        effects =
            v.request.effects
            ++ packet_sent v.request.server_addr (take (4 + length payload) (next_packet v)) ∷ [];
        answers = [];
        file_bytes_transferred = v.request.file_bytes_transferred + length payload;
      };
      source = drop v.request.block_size v.source;
      data_packets =
          store (slot_index v.request.window_size v.next_sequence_number) (next_packet v)
            v.data_packets;
      last_packet_size = 4 + length payload;
      end_of_file = v.end_of_file || ltb (length payload) v.request.block_size;
      next_sequence_number = u16 (v.next_sequence_number + 1);
    }

send_block_lem : (v : Sender) → v.request.answers ≡ [] → send_block v ≡ (going, block_out v)
unfolding send_block send_to
send_block_lem v a = ground (arith, a)

fill_window-one :
    (v : Sender)
    → v.request.answers ≡ []
    → v.end_of_file ≡ false
    → v.request.window_size ≡ 1
    → has_room v.window_begin v.request.window_size v.next_sequence_number ≡ true
    → fill_window v.request.window_size v ≡ (going, block_out v)
unfolding fill_window
fill_window-one v a more one room =
    let step = send_block_lem v a in
    let positive : (v.request.window_size == 0) ≡ false = ground (arith, one) in
    ap (λ k. fill_window k v) one ∙ ground (arith, step, more, positive, room)

-- The memory of the reply behind an ACK.
abbrev pub replied : ℕ → Sender → Sender
replied n u = record u {
  request = record u.request { answers = [] };
  recv_buffer = overwrite (take u.request.packet_recv_buffer_size (encode_ack n)) u.recv_buffer;
}

on_wait-reply :
    (server : Address) (n : ℕ) (u : Sender)
    → u.request.answers ≡ []
    → u.request.server_addr ≡ server
    → sockaddr_equals server server ≡ true
    → on_wait (datagram server (encode_ack n)) u ≡ on_reply (replied n u)
unfolding on_wait
on_wait-reply server n u a s k = ground (arith, a, s, k)

length-encode_ack : (n : ℕ) → length (encode_ack n) ≡ 4
unfolding encode_ack
length-encode_ack n = omega arith

reply-ack :
    (n : ℕ) (buffer : Bytes)
    → n < u16_mod
    → (get_opcode (overwrite (encode_ack n) buffer) ≡ ack)
      × (word_at (overwrite (encode_ack n) buffer) 2 ≡ n)
unfolding overwrite encode_ack get_opcode
reply-ack n buffer small = (ground arith, ground (arith, small))

on_reply-ack : (v : Sender) → get_opcode v.recv_buffer ≡ ack → on_reply v ≡ on_ack v
unfolding on_reply
on_reply-ack v h = ground (arith, h)

-- The client behind an ACK of its last block.
abbrev pub moved : ℕ → Sender → Sender
moved n v = record v { window_begin = u16 (n + 1); retransmissions = 0 }

on_ack-last :
    (n : ℕ) (v : Sender)
    → word_at v.recv_buffer 2 ≡ n
    → v.window_begin ≡ n
    → v.next_sequence_number ≡ n + 1
    → 0 < n
    → n + 1 < u16_mod
    → on_ack v ≡ (if v.end_of_file then complete else going, moved n v)
unfolding on_ack
on_ack-last n v word begin next pos small =
    let plain =
      in_window_plain v.window_begin v.next_sequence_number n (omega (arith, begin, pos))
        (omega (arith, begin, next)) (omega (arith, next, small)) in
    let inside = plain.1 (omega (arith, begin), omega (arith, next)) in
    ground (arith, word, inside, next)

abbrev pub acknowledged : ℕ → Sender → Sender
acknowledged n v = moved n (replied n (block_out v))

on_reply-replied :
    (n : ℕ) (v : Sender)
    → 4 ≤ v.request.packet_recv_buffer_size
    → v.window_begin ≡ n
    → v.next_sequence_number ≡ n + 1
    → 0 < n
    → n + 1 < u16_mod
    → on_reply (replied n v) ≡ (if v.end_of_file then complete else going, moved n (replied n v))
on_reply-replied n v room begin next pos small =
    let size = length-encode_ack n in
    let whole =
      take_all v.request.packet_recv_buffer_size (encode_ack n) (omega (arith, size, room)) in
    let same = ap (λ l. overwrite l v.recv_buffer) whole in
    let parts = reply-ack n v.recv_buffer (omega (arith, small)) in
    on_reply-ack (replied n v) (ap get_opcode same ∙ parts.0)
    ∙ on_ack-last n (replied n v) (ap (λ l. word_at l 2) same ∙ parts.1) begin next pos small

abbrev waiting_for : Turn → Progress × Sender → Progress × Sender
waiting_for (waited a) r = elim r.0 [ going ↦ on_wait a r.1 | other ↦ (other, r.1) ]
waiting_for turn r = r

pub on_turn-acknowledged :
    (server : Address) (size : ℕ) (v : Sender)
    → IsIdle server size v
    → v.next_sequence_number + 1 < u16_mod
    → on_turn (waited (datagram server (encode_ack v.next_sequence_number))) v ≡ (
      if (block_out v).end_of_file then complete else going,
      acknowledged v.next_sequence_number v,
    )
unfolding on_turn
on_turn-acknowledged server size v w small =
    let n = v.next_sequence_number in
    let pos = w.is_positive in
    let begin = w.is_empty in
    let one = w.has_window in
    let plain =
      has_room_plain v.window_begin n v.request.window_size (omega (arith, begin)) (omega arith)
        (omega (arith, one)) (omega (arith, one)) in
    let room = plain.1 (omega (arith, begin, one)) in
    let next : u16 (n + 1) ≡ n + 1 = mod-eq_of_lt {n = n + 1} {m = u16_mod} small in
    ap (waiting_for (waited (datagram server (encode_ack n))))
      (fill_window-one v w.no_failure w.is_reading w.has_window room)
    ∙ on_wait-reply server n (block_out v) refl w.is_server w.is_known
    ∙ on_reply-replied n (block_out v) w.has_room_for_ack begin next pos small

-- The ACKs of `k` blocks from `n` on.
abbrev pub acks : Address → ℕ → ℕ → List Turn
acks server zero n = []
acks server (suc k) n = waited (datagram server (encode_ack n)) ∷ acks server k (u16 (n + 1))

abbrev pub IsSent : Bytes → ℕ → Progress × Sender → Type 0
IsSent left before r =
    (r.0 ≡ complete)
    × (r.1.source ≡ [])
    × (r.1.request.file_bytes_transferred ≡ before + length left)

pub send_turns-first :
    (turn : Turn) (rest : List Turn) (v w : Sender) (last : Bool)
    → on_turn turn v ≡ (if last then complete else going, w)
    → send_turns (turn ∷ rest) v ≡ (if last then (complete, w) else send_turns rest w)
unfolding send_turns
send_turns-first turn rest v w true h = ground (arith, h)
send_turns-first turn rest v w false h = ground (arith, h)
