-- ===== src/Server/Session/Fetch/Blocks.antt =====
-- The blocks that a read request makes of its file in mode octet, and what a short read does.
use mathlib.Core.List.{append-nil}
use file_transfer_over_udp.Prelude.{
  ℕ, zero, suc, ◌+◌, ◌%◌, ◌≤◌, ◌<◌, ◌≡◌, ◌≢◌, ◌⊎◌, refl, true, false, none, some, [], ◌∷◌, ◌++◌,
  length, take, drop, ltb, ◌==◌, if◌then◌else◌, arith, length-take, take_all,
}
use file_transfer_over_udp.Prelude.Words.{Bytes, u16, u16_mod}
use file_transfer_over_udp.Wire.Packet.{data_packet_init}
use file_transfer_over_udp.Window.Slots.{slot_index-ne}
use file_transfer_over_udp.Server.Session.{
  Session, sent, submitted, timeout_job, succeeded, combinators, update,
}
use file_transfer_over_udp.Server.Session.Calls.{
  act, send, send_to, call, submit_timeout_lem, timeout_started,
}
use file_transfer_over_udp.Server.Session.Fetch.{
  next_slot, data_read, create_data_packets, send_next_packet, on_read, slot_packet, init_packet,
}
use file_transfer_over_udp.Server.Session.Timer.{get_data_packet}

-- The session after a new packet is sent, with the timeout started if it is the first of the window.
abbrev sent_only : Session → Session
sent_only s =
    record (act (sent s.client_address (slot_packet (s.slots (next_slot s)) s.last_block_size)) s) {
      answers = [];
      packets_sent = s.packets_sent + 1;
      last_packet =
          if ltb s.last_block_size s.block_size
          then some s.next_data_packet_to_send
          else s.last_packet;
    }

abbrev packet_sent : Session → Session
packet_sent s =
    let t = sent_only s in
    let u = if s.window_begin == s.next_data_packet_to_send then timeout_started t else t in
    record u { next_data_packet_to_send = u16 (s.next_data_packet_to_send + 1) }

send_next_packet_lem :
    (s : Session)
    → s.answers ≡ []
    → s.is_adaptive_timeout_active ≡ false
    → send_next_packet s ≡ (succeeded, packet_sent s)
unfolding send_next_packet send send_to call combinators
send_next_packet_lem s a na =
    let timer = submit_timeout_lem (sent_only s) refl in ground (arith, a, na, timer)

data_read_whole :
    (s : Session)
    → s.last_block_size ≡ 0
    → data_read s.block_size s ≡ (
      record s {
        source = drop s.block_size s.source;
        slots =
            update s.slots
              (next_slot s)
              (record (s.slots (next_slot s)) { payload = take s.block_size s.source });
      },
      length (take s.block_size s.source),
    )
unfolding data_read
data_read_whole s z = ground (arith, z)

drop-is_short : (n : ℕ) (l : Bytes) → length (take n l) < n → drop n l ≡ []
drop-is_short zero l h = elim h [ ]
drop-is_short (suc n) [] h = refl
drop-is_short (suc n) (x ∷ l) h = drop-is_short n l (omega arith)

take-le : (n : ℕ) (l : Bytes) → length (take n l) ≤ n
take-le n l = omega (arith, length-take n l)

create_data_packets-whole :
    (s : Session)
    → s.last_block_size ≡ 0
    → s.is_seekable ≡ true
    → s.block_size < u16_mod
    → let r = data_read s.block_size s in
      create_data_packets r.1 r.0
      ≡ (true, init_packet (record r.0 { last_block_size = length (take s.block_size s.source) }))
unfolding create_data_packets
create_data_packets-whole s z seek h =
    let read = data_read_whole s z in
    let bound = take-le s.block_size s.source in
    let at_end = drop-is_short s.block_size s.source in ground (arith, z, seek, read, bound, at_end)

-- The block that the read completes is the next one of the file.
abbrev block_read : Session → Session
block_read s =
    init_packet (record (data_read s.block_size s).0 {
      last_block_size = length (take s.block_size s.source);
    })

on_read_lem :
    (s : Session)
    → s.answers ≡ []
    → s.is_adaptive_timeout_active ≡ false
    → s.last_block_size ≡ 0
    → s.is_seekable ≡ true
    → s.block_size < u16_mod
    → on_read s.block_size s ≡ (succeeded, packet_sent (block_read s))
unfolding on_read data_read
on_read_lem s a na z seek h =
    let whole = create_data_packets-whole s z seek h in
    let next = send_next_packet_lem (block_read s) a na in ground (arith, whole, next)

-- A session that has nothing of the next block yet, of a file that can be sought in, with a fixed
-- timeout and a 16-bit block size, sends with a read of full size exactly the next `block_size`
-- bytes of the file, or what is left of it, as the next block; the block is the last one if it is
-- short, and the first one of a window starts the timeout. No system call fails.
pub on_read_sends_block :
    (s : Session)
    → s.answers ≡ []
    → s.is_adaptive_timeout_active ≡ false
    → s.last_block_size ≡ 0
    → s.is_seekable ≡ true
    → s.block_size < u16_mod
    → let t = (on_read s.block_size s).1 in
      let chunk = take s.block_size s.source in
      ((on_read s.block_size s).0 ≡ succeeded)
      × (t.actions
          ≡ (s.actions
              ++ sent s.client_address (data_packet_init s.next_data_packet_to_send ++ chunk) ∷ [])
            ++ (if s.window_begin == s.next_data_packet_to_send
                then submitted timeout_job ∷ []
                else []))
      × (t.source ≡ drop s.block_size s.source)
      × (t.next_data_packet_to_send ≡ u16 (s.next_data_packet_to_send + 1))
      × (t.last_packet ≡ (
          if ltb (length chunk) s.block_size
          then some s.next_data_packet_to_send
          else s.last_packet))
on_read_sends_block s a na z seek h =
    let r = on_read_lem s a na z seek h in
    let read = data_read_whole s z in
    let whole =
      take_all (length (take s.block_size s.source)) (take s.block_size s.source) (omega arith) in
    let none_added = append-nil (
      s.actions
      ++ sent s.client_address
          (data_packet_init s.next_data_packet_to_send ++ take s.block_size s.source)
        ∷ []) in
    ground (arith, r, read, whole, none_added)

-- A read of full size that brings the next block, in a session that has nothing of it yet, with a
-- file that can be sought in, a fixed timeout and no call that fails, leaves a packet in flight as
-- it is, if no block was the last one before, the packet is fewer than `window_size` blocks before
-- the new one, and the window size divides 65536 or the block numbers have not wrapped in between.
pub on_read_keeps_packet :
    (s : Session) (i d : ℕ)
    → s.answers ≡ []
    → s.is_adaptive_timeout_active ≡ false
    → s.last_block_size ≡ 0
    → s.is_seekable ≡ true
    → s.block_size < u16_mod
    → s.last_packet ≡ none
    → i < u16_mod
    → 0 < d
    → d < s.window_size
    → s.window_size < u16_mod
    → (u16_mod % s.window_size ≡ 0) ⊎ ((0 < i) × (i + d ≤ u16_mod))
    → s.next_data_packet_to_send ≡ u16 (i + d)
    → get_data_packet (on_read s.block_size s).1 i ≡ get_data_packet s i
unfolding get_data_packet
on_read_keeps_packet s i d a na z seek h none_last hi hd hw hv hwrap e =
    let r = on_read_lem s a na z seek h in
    let read = data_read_whole s z in
    let apart = slot_index-ne s.window_size i d hi hd hw hv hwrap in ground (arith, r, read, apart)

not_at_end : (l : Bytes) → l ≢ [] → (elim l [ [] ↦ true | x ∷ xs ↦ false ]) ≡ false
not_at_end [] ne = elim (ne refl) [ ]
not_at_end (x ∷ l) ne = refl

-- In a session whose next block short reads have filled, of a 16-bit size above 0, with a file that
-- can be sought in and goes on behind the block, a further read, of whatever size, succeeds, takes
-- nothing, sends nothing and leaves the block unfinished.
pub on_read_stuck :
    (n : ℕ) (s : Session)
    → s.is_seekable ≡ true
    → s.last_block_size ≡ s.block_size
    → 0 < s.block_size
    → s.block_size < u16_mod
    → s.source ≢ []
    → ((on_read n s).0 ≡ succeeded)
      × ((on_read n s).1.actions ≡ s.actions)
      × ((on_read n s).1.source ≡ s.source)
      × ((on_read n s).1.last_block_size ≡ s.last_block_size)
      × ((on_read n s).1.incomplete_read ≡ true)
unfolding on_read create_data_packets data_read
on_read_stuck n s seek full pos h ne = let more = not_at_end s.source ne in ground (arith, more)
