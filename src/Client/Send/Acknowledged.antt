-- ===== src/Client/Send/Acknowledged.antt =====
-- The whole of a write request that is acknowledged block by block.
use native.Mathlib.Nat.{mod-eq_of_lt, suc-mul}
use file_transfer_over_udp.Prelude.{
  ℕ, zero, suc, ◌+◌, ◌*◌, ◌≤◌, ◌<◌, ◌≡◌, refl, ap, ◌∙◌, true, false, [], ◌∷◌, length, drop,
  if◌then◌else◌, arith, length-take, length-drop, take_all,
}
use file_transfer_over_udp.Prelude.Words.{Bytes, u16, u16_mod}
use file_transfer_over_udp.Inet.{Address, has_known_family, sockaddr_equals_iff}
use file_transfer_over_udp.Client.{Request}
use file_transfer_over_udp.Client.Receive.{complete}
use file_transfer_over_udp.Client.Send.{Sender, send_turns, send_file}
use file_transfer_over_udp.Client.Send.Complete.{
  IsIdle, acknowledged, block_out, acks, IsSent, on_turn-acknowledged, send_turns-first,
}

drop-short : (n : ℕ) (l : Bytes) → length l < n → drop n l ≡ []
drop-short zero l h = elim h [ ]
drop-short (suc n) [] h = refl
drop-short (suc n) (x ∷ l) h = drop-short n l (omega arith)

-- A block that is full leaves the client idle at the next one.
IsIdle-acknowledged :
    (server : Address) (size : ℕ) (v : Sender)
    → IsIdle server size v
    → v.next_sequence_number + 1 < u16_mod
    → (block_out v).end_of_file ≡ false
    → IsIdle server size (acknowledged v.next_sequence_number v)
IsIdle-acknowledged server size v w small more = record {
  is_server = w.is_server;
  is_known = w.is_known;
  has_size = w.has_size;
  has_window = w.has_window;
  has_room_for_ack = w.has_room_for_ack;
  no_failure = refl;
  is_positive = omega arith;
  is_empty = refl;
  is_reading = more;
}

-- With a file of `k` full blocks and a short one, from the next block on.
send_turns-acknowledged :
    (server : Address) (size k : ℕ) (v : Sender)
    → IsIdle server size v
    → v.next_sequence_number + k + 1 < u16_mod
    → k * size ≤ length v.source
    → length v.source < k * size + size
    → IsSent v.source v.request.file_bytes_transferred
        (send_turns (acks server (suc k) v.next_sequence_number) v)
send_turns-acknowledged server size zero v w small low high =
    let n = v.next_sequence_number in
    let same = w.has_size in
    let few : length v.source < v.request.block_size = omega (arith, high, same) in
    let whole = take_all v.request.block_size v.source (omega (arith, few)) in
    let count = ap length whole in
    let last : (block_out v).end_of_file ≡ true = ground (arith, count, few) in
    let step =
      send_turns-first _ [] v (acknowledged n v) (block_out v).end_of_file
        (on_turn-acknowledged server size v w (omega (arith, small)))
      ∙ ap (λ b. if b then (complete, acknowledged n v) else send_turns [] (acknowledged n v))
          last in
    (
      ap (λ r. r.0) step,
      ap (λ r. r.1.source) step ∙ drop-short v.request.block_size v.source few,
      ap (λ r. r.1.request.file_bytes_transferred) step
          ∙ ap (λ m. v.request.file_bytes_transferred + m) count,
    )
send_turns-acknowledged server size (suc k) v w small low high =
    let n = v.next_sequence_number in
    let same = w.has_size in
    let more_bytes = suc-mul k size in
    let taken = length-take v.request.block_size v.source in
    let left = length-drop v.request.block_size v.source in
    let enough : v.request.block_size ≤ length v.source = omega (arith, low, same, more_bytes) in
    let reading = w.is_reading in
    let full : (block_out v).end_of_file ≡ false = ground (arith, taken, enough, reading) in
    let next : u16 (n + 1) ≡ n + 1 =
      mod-eq_of_lt {n = n + 1} {m = u16_mod} (omega (arith, small)) in
    let u = acknowledged n v in
    let rest = acks server (suc k) (u16 (n + 1)) in
    let step =
      send_turns-first _ rest v u (block_out v).end_of_file
        (on_turn-acknowledged server size v w (omega (arith, small)))
      ∙ ap (λ b. if b then (complete, u) else send_turns rest u) full in
    let later =
      send_turns-acknowledged server size k u
        (IsIdle-acknowledged server size v w (omega (arith, small)) full)
        (omega (arith, next, small)) (omega (arith, left, low, same, more_bytes))
        (omega (arith, left, high, same, more_bytes)) in
    (
      ap (λ r. r.0) step ∙ later.0,
      ap (λ r. r.1.source) step ∙ later.1,
      ap (λ r. r.1.request.file_bytes_transferred) step
          ∙ later.2
          ∙ omega (arith, taken, left, enough),
    )

-- For a file of `k` full blocks and a shorter one, fewer than 65534 in all, in blocks of at least one byte
-- and a window of one: if the server acknowledges each block in turn and no call fails, then
-- `send_file` comes to its end, has read the whole file, and has counted its bytes.
pub send_file-acknowledged :
    (memory : ℕ → Bytes) (buffer content : Bytes) (k : ℕ) (r : Request)
    → r.answers ≡ []
    → r.window_size ≡ 1
    → has_known_family r.server_addr ≡ true
    → 4 ≤ r.packet_recv_buffer_size
    → k < 65533
    → k * r.block_size ≤ length content
    → length content < k * r.block_size + r.block_size
    → let t = send_file memory buffer content (acks r.server_addr (suc k) 1) r in
      (t.0 ≡ complete)
      × (t.1.source ≡ [])
      × (t.1.request.file_bytes_transferred ≡ r.file_bytes_transferred + length content)
unfolding send_file
send_file-acknowledged memory buffer content k r a one known room few low high = rw a (
    send_turns-acknowledged r.server_addr r.block_size k _
      (record {
        is_server = refl;
        is_known = (sockaddr_equals_iff r.server_addr r.server_addr).1 (refl, known);
        has_size = refl;
        has_window = one;
        has_room_for_ack = room;
        no_failure = refl;
        is_positive = omega arith;
        is_empty = refl;
        is_reading = refl;
      })
      (omega (arith, few)) low high)
