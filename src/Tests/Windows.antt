-- ===== src/Tests/Windows.antt =====
-- The window of block numbers and the addresses at concrete values.
use file_transfer_over_udp.Prelude.{ℕ, ◌+◌, ◌<◌, ◌≤◌, ◌≡◌, ◌≢◌, ◌↔◌, inl, refl, true, arith}
use file_transfer_over_udp.Prelude.Words.{u16, sub_u16, u16_mod}
use file_transfer_over_udp.Window.{is_in_range, is_ack_in_window, has_room, slot_index}
use file_transfer_over_udp.Window.Range.{
  is_in_range_iff, is_ack_in_window_iff, is_ack_in_window_empty, has_room_iff,
}
use file_transfer_over_udp.Window.Slots.{slot_index-ne, slot_index_collision}
use file_transfer_over_udp.Inet.{ipv4, sockaddr_equals, has_known_family, sockaddr_equals_iff}

-- A range over the wrap.
is_in_range_iff_example : (is_in_range 2 65530 5 ≡ true) ↔ (sub_u16 2 65530 ≤ sub_u16 5 65530)
is_in_range_iff_example = is_in_range_iff 2 65530 5 (omega arith) (omega arith) (omega arith)

is_ack_in_window_iff_example :
    (is_ack_in_window 65534 (u16 (65534 + 4)) 1 ≡ true) ↔ (sub_u16 1 65534 < 4)
is_ack_in_window_iff_example =
    is_ack_in_window_iff 65534 4 1 (omega arith) (omega arith) (omega arith) (omega arith)

is_ack_in_window_empty_example : is_ack_in_window 7 7 4242 ≡ true
is_ack_in_window_empty_example = is_ack_in_window_empty 7 4242 (omega arith) (omega arith)

has_room_iff_example : (has_room 65534 8 (u16 (65534 + 5)) ≡ true) ↔ (5 < 8)
has_room_iff_example =
    has_room_iff 65534 8 5 (omega arith) (omega arith) (omega arith) (omega arith)

slot_index-ne_example : slot_index 8 (u16 (65533 + 5)) ≢ slot_index 8 65533
slot_index-ne_example =
    slot_index-ne 8 65533 5 (omega arith) (omega arith) (omega arith) (omega arith) (inl refl)

slot_index_collision_example :
    (block : ℕ) × (block < u16_mod)
    × (0 < sub_u16 1 block)
    × (sub_u16 1 block < 10)
    × (slot_index 10 block ≡ slot_index 10 1)
slot_index_collision_example = slot_index_collision 10 (omega arith) (omega arith) (omega arith)

sockaddr_equals_iff_example :
    (sockaddr_equals (ipv4 69 1) (ipv4 69 1) ≡ true)
    ↔ ((ipv4 69 1 ≡ ipv4 69 1) × (has_known_family (ipv4 69 1) ≡ true))
sockaddr_equals_iff_example = sockaddr_equals_iff (ipv4 69 1) (ipv4 69 1)
