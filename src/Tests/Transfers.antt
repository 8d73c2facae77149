-- ===== src/Tests/Transfers.antt =====
-- The blocks of a transfer at concrete values.
use file_transfer_over_udp.Prelude.{
  ℕ, ◌+◌, ◌≤◌, ◌⊎◌, true, false, none, some, List, [], ◌∷◌, ◌++◌, ◌≡◌, refl, map,
}
use file_transfer_over_udp.Prelude.Words.{Bytes}
use file_transfer_over_udp.Prelude.Text.{codes, cstring, after_string, text_eq, text_eq_fold}
use file_transfer_over_udp.Wire.Packet.{encode_ack}
use file_transfer_over_udp.Server.Session.{Session}
use file_transfer_over_udp.Server.Session.Fetch.{read_upto}
use file_transfer_over_udp.Server.Session.Handle.{
  start_event, data_available, SessionState, idle, session_init, run,
}
use file_transfer_over_udp.Server.Session.Fetch.{on_read}
use file_transfer_over_udp.Wire.Options.{
  tsize, parse_options, parse_from, store_option, find_kind, accepted_value, is_size,
  is_number_within,
}
use file_transfer_over_udp.Wire.Options.Number.{strtoul, skip_blank_or_plus}
use file_transfer_over_udp.Server.Session.Start.{
  session_parse_options, apply_options, apply_option, recognize_options, option_places,
  asks_adaptive, decimal_from,
}
use file_transfer_over_udp.Server.Session.Start.Storage.{places_from, place_value, print_size}
use file_transfer_over_udp.Wire.Packet.{data_packet_init}
use file_transfer_over_udp.Prelude.{arith}
use file_transfer_over_udp.Tests.Setup.{peer, server, disk, plain_read, from_peer, handlers, fresh}
use file_transfer_over_udp.Prelude.{ℕ, inl}
use file_transfer_over_udp.Server.Session.{
  write_request, succeeded, diverged, sent, written, submitted, timeout_job,
}
use file_transfer_over_udp.Server.Session.InOrder.{
  data_event, visible, receive_in_order, IsReceiving,
}
use file_transfer_over_udp.Server.Session.InOrder.Delivery.{run-receive_in_order}
use file_transfer_over_udp.Server.Session.Fetch.Blocks.{
  on_read_sends_block, on_read_keeps_packet, on_read_stuck,
}
use file_transfer_over_udp.Server.Session.Timer.{get_data_packet, on_timeout}
use file_transfer_over_udp.Server.Session.Timer.GoBackN.{
  blocks, sent_packets, on_timeout_sends_window, on_timeout_empty,
}
use file_transfer_over_udp.Wire.Options.Valid.{no_options-AreValid}
use file_transfer_over_udp.Server.Session.Start.Negotiation.{
  IsPrinted, session_parse_options-IsNegotiable,
}

-- A write request with blocks of four bytes.
abbrev receiving : Session
receiving = record fresh {
  request_type = write_request;
  block_size = 4;
  recv_buffer_size = 516;
  is_open = true;
}

-- A duplicate, a block that comes too early, the short last one, and one behind it.
abbrev arrivals : List (ℕ × Bytes)
arrivals =
    (1, codes "abcd") ∷ (1, codes "abcd") ∷ (3, codes "xy") ∷ (2, codes "ef") ∷ (3, codes "xy") ∷ []

receiving-IsReceiving : IsReceiving peer receiving
unfolding handlers
receiving-IsReceiving = record {
  is_write = refl;
  is_client = refl;
  is_known = refl;
  no_failure = refl;
  is_open = refl;
  first_block = λ h. refl;
}

run-receive_in_order_example :
    visible (run server (map (data_event peer) arrivals) receiving).1.actions
    ≡ written (codes "abcd")
      ∷ sent peer (encode_ack 1)
      ∷ written (codes "ef")
      ∷ sent peer (encode_ack 2)
      ∷ []
unfolding handlers receive_in_order
run-receive_in_order_example =
    run-receive_in_order server peer arrivals receiving receiving-IsReceiving refl (ground arith)

-- A read request with blocks of four bytes, two of them in flight and seven bytes left.
abbrev sending : Session
sending = record fresh {
  block_size = 4;
  window_size = 8;
  window_begin = 2;
  next_data_packet_to_send = 4;
  source = codes "abcdefg";
  slots = λ i. record { block_number = i + 1; payload = codes "wxyz" };
}

on_read_sends_block_example :
    let t = (on_read 4 sending).1 in
    ((on_read 4 sending).0 ≡ succeeded)
    × (t.actions ≡ (sending.actions ++ sent peer (data_packet_init 4 ++ codes "abcd") ∷ []) ++ [])
    × (t.source ≡ codes "efg")
    × (t.next_data_packet_to_send ≡ 5)
    × (t.last_packet ≡ none)
unfolding session_init
on_read_sends_block_example = on_read_sends_block sending refl refl refl refl (omega arith)

on_read_keeps_packet_example : get_data_packet (on_read 4 sending).1 2 ≡ get_data_packet sending 2
unfolding session_init
on_read_keeps_packet_example =
    on_read_keeps_packet sending 2 2 refl refl refl refl (omega arith) refl (omega arith)
      (omega arith) (omega arith) (omega arith) (inl refl) refl

-- The block is full of bytes that came by short reads.
abbrev filled : Session
filled = record sending { last_block_size = 4; incomplete_read = true }

on_read_stuck_example :
    ((on_read 4 filled).0 ≡ succeeded)
    × ((on_read 4 filled).1.actions ≡ [])
    × ((on_read 4 filled).1.source ≡ codes "abcdefg")
    × ((on_read 4 filled).1.last_block_size ≡ 4)
    × ((on_read 4 filled).1.incomplete_read ≡ true)
unfolding session_init
on_read_stuck_example = on_read_stuck 4 filled refl refl (omega arith) (omega arith) (λ e. cc)

on_timeout_sends_window_example :
    ((on_timeout sending).0 ≡ succeeded)
    × ((on_timeout sending).1.actions
        ≡ (sending.actions ++ submitted timeout_job ∷ []) ++ sent_packets sending (blocks 2 2))
unfolding session_init
on_timeout_sends_window_example =
    on_timeout_sends_window sending 2 refl refl refl (omega arith) refl (omega arith) (omega arith)
      (omega arith) refl

-- A window of nine blocks, and the size of the file, in a buffer of its own.
abbrev asks_size : Bytes
asks_size =
    codes "tsize" ++ 0 ∷ (codes "0" ++ 0 ∷ (codes "windowsize" ++ 0 ∷ (codes "+9" ++ 0 ∷ [])))

session_parse_options-IsNegotiable_example :
    let t = session_parse_options server (some 1000000000000) asks_size fresh in
    (8 ≤ t.block_size)
    × (t.block_size ≤ 65464)
    × (1 ≤ t.timeout)
    × (t.timeout ≤ 255)
    × (((1 ≤ t.window_size) × (t.window_size ≤ 65535))
        ⊎ IsPrinted server (some 1000000000000) asks_size)
unfolding session_init
session_parse_options-IsNegotiable_example =
    session_parse_options-IsNegotiable server (some 1000000000000) asks_size fresh
      no_options-AreValid
      (record {
        block_size_bounds = (omega arith, omega arith);
        timeout_bounds = (omega arith, omega arith);
        window_size_bounds = (omega arith, omega arith);
      })

asks_size_places : option_places server asks_size tsize ≡ none
unfolding option_places places_from place_value asks_adaptive find_kind accepted_value text_eq_fold
    is_number_within strtoul text_eq cstring after_string
asks_size_places = refl

-- A size of 13 digits, printed over the value of `tsize`, takes away that of `windowsize` behind it.
abbrev prints_size : Bytes
prints_size =
    codes "tsize" ++ 0 ∷ (codes "5" ++ 0 ∷ (codes "windowsize" ++ 0 ∷ (codes "4" ++ 0 ∷ [])))

prints_size_window :
    (session_parse_options server (some 1000000000000) prints_size fresh).window_size ≡ 0
unfolding session_init session_parse_options apply_options apply_option recognize_options
    option_places places_from place_value print_size asks_adaptive parse_options parse_from
    store_option find_kind accepted_value decimal_from text_eq_fold is_size is_number_within strtoul
    text_eq cstring after_string skip_blank_or_plus
prints_size_window = refl

-- A client that acknowledges block 1 while the server is still reading it.
abbrev early : SessionState × Session
early =
    run server
      (start_event disk plain_read
        ∷ from_peer (0 ∷ 4 ∷ 0 ∷ 1 ∷ [])
        ∷ data_available (read_upto 512)
        ∷ [])
      fresh

-- The block is sent, no packet is in flight, and the timeout is active.
early_window :
    (early.0 ≡ idle)
    × (early.1.window_begin ≡ 2)
    × (early.1.next_data_packet_to_send ≡ 2)
    × (early.1.is_timer_active ≡ true)
    × (early.1.should_close ≡ false)
unfolding handlers
early_window = (refl, refl, refl, refl, refl)

-- So this timeout does not come to an end.
on_timeout_empty_example : (on_timeout early.1).0 ≡ diverged
unfolding handlers
on_timeout_empty_example =
    on_timeout_empty early.1 refl refl refl (omega arith) refl (omega arith) refl
