-- ===== src/Window.antt =====
-- Sequence numbers of the Go-Back-N window, from tftp/src/server/session.c and
-- tftp/src/client/client.c: the range test on 16-bit block numbers, and the place of a block in the
-- ring of stored packets.
pub mod Range
pub mod Slots
use file_transfer_over_udp.Prelude.{ℕ, ◌+◌, ◌-◌, ◌%◌, Bool, ◌&&◌, ◌||◌, leb, if◌then◌else◌}
use file_transfer_over_udp.Prelude.Words.{u16, sub_u16}

-- `is_in_range` of session.c, and its copy in client.c.
unfoldable pub is_in_range : ℕ → ℕ → ℕ → Bool
is_in_range n begin end =
    if leb begin end then leb begin n && leb n end else leb begin n || leb n end

-- `((uint16_t) (i - 1)) % window_size`, the index of block `i` in `data_packets`.
unfoldable pub slot_index : ℕ → ℕ → ℕ
slot_index window_size i = sub_u16 i 1 % window_size

-- `is_in_range(block_number, window_begin, next_data_packet_to_send - 1)`, the test on an ACK.
unfoldable pub is_ack_in_window : ℕ → ℕ → ℕ → Bool
unfolding is_in_range
is_ack_in_window window_begin next block = is_in_range block window_begin (sub_u16 next 1)

-- `is_in_range(next, window_begin, window_begin + window_size - 1)`: there is room to send `next`.
unfoldable pub has_room : ℕ → ℕ → ℕ → Bool
unfolding is_in_range
has_room window_begin window_size next =
    is_in_range next window_begin (sub_u16 (u16 (window_begin + window_size)) 1)
