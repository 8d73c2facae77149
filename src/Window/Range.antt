-- ===== src/Window/Range.antt =====
-- What the range test of `is_in_range` means for a window of 16-bit block numbers.
use file_transfer_over_udp.Prelude.{ℕ, ◌+◌, ◌≤◌, ◌<◌, ◌≡◌, ◌↔◌, true, arith}
use file_transfer_over_udp.Prelude.Words.{u16, sub_u16, u16_mod}
use file_transfer_over_udp.Window.{is_in_range, is_ack_in_window, has_room}

-- The test on 16-bit numbers holds exactly for the numbers met on the way from `begin` up to `end`,
-- counting modulo 65536.
pub is_in_range_iff :
    (n begin end : ℕ)
    → n < u16_mod
    → begin < u16_mod
    → end < u16_mod
    → (is_in_range n begin end ≡ true) ↔ (sub_u16 n begin ≤ sub_u16 end begin)
unfolding is_in_range
is_in_range_iff n begin end hn hb he = (λ h. ground arith, λ h. ground arith)

-- With `sent` blocks in flight, `0 < sent < 65536`, an ACK with a 16-bit block number passes the
-- test exactly if its block is one of the blocks in flight.
pub is_ack_in_window_iff :
    (window_begin sent block : ℕ)
    → window_begin < u16_mod
    → block < u16_mod
    → 0 < sent
    → sent < u16_mod
    → (is_ack_in_window window_begin (u16 (window_begin + sent)) block ≡ true)
      ↔ (sub_u16 block window_begin < sent)
unfolding is_ack_in_window
is_ack_in_window_iff window_begin sent block hb hk hs ht =
    (λ h. omega (arith, (iff).0 h), λ h. (iff).1 (omega arith))
  where
    iff : (is_in_range block window_begin (sub_u16 (u16 (window_begin + sent)) 1) ≡ true) ↔ (
        sub_u16 block window_begin ≤ sub_u16 (sub_u16 (u16 (window_begin + sent)) 1) window_begin)
    iff = is_in_range_iff block window_begin _ hk hb (omega arith)

-- With no block in flight the test of an ACK holds for every 16-bit block number.
pub is_ack_in_window_empty :
    (window_begin block : ℕ)
    → window_begin < u16_mod
    → block < u16_mod
    → is_ack_in_window window_begin window_begin block ≡ true
unfolding is_ack_in_window
is_ack_in_window_empty window_begin block hb hk =
    (is_in_range_iff block window_begin (sub_u16 window_begin 1) hk hb (omega arith)).1
      (omega arith)

-- For a window size from 1 to 65535 and fewer than 65536 blocks in flight, the next block may be
-- sent exactly while fewer than `window_size` blocks are in flight.
pub has_room_iff :
    (window_begin window_size sent : ℕ)
    → window_begin < u16_mod
    → 0 < window_size
    → window_size < u16_mod
    → sent < u16_mod
    → (has_room window_begin window_size (u16 (window_begin + sent)) ≡ true) ↔ (sent < window_size)
unfolding has_room
has_room_iff window_begin window_size sent hb hw hv hs =
    (λ h. omega (arith, (iff).0 h), λ h. (iff).1 (omega arith))
  where
    iff :
        (is_in_range
            (u16 (window_begin + sent))
            window_begin
            (sub_u16 (u16 (window_begin + window_size)) 1)
          ≡ true)
        ↔ (sub_u16 (u16 (window_begin + sent)) window_begin
            ≤ sub_u16 (sub_u16 (u16 (window_begin + window_size)) 1) window_begin)
    iff = is_in_range_iff _ window_begin _ (omega arith) hb (omega arith)
