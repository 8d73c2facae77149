-- ===== src/Tests/Writes.antt =====
-- Write requests of the client, and requests without an answer, at concrete values.
use mathlib.Core.List.Memᴰ
use file_transfer_over_udp.Prelude.{
  ℕ, ◌≡◌, ◌≢◌, refl, Bool, true, false, none, some, List, [], ◌∷◌, ◌++◌, map, arith,
}
use file_transfer_over_udp.Prelude.Words.{Bytes}
use file_transfer_over_udp.Prelude.Text.{codes}
use file_transfer_over_udp.Wire.{rrq, wrq, octet, get_opcode}
use file_transfer_over_udp.Wire.Options.{no_options}
use file_transfer_over_udp.Wire.Packet.{encode_ack, data_packet_init}
use file_transfer_over_udp.Wire.Request.{request_packet_init, append_options}
use file_transfer_over_udp.Inet.{Address, ipv4, sockaddr_equals}
use file_transfer_over_udp.Window.{slot_index, has_room, is_in_range, is_ack_in_window}
use file_transfer_over_udp.Client.{Request, packet_sent, send_to}
use file_transfer_over_udp.Client.Choice.{ClientOptions, options_init, value_or, is_required}
use file_transfer_over_udp.Client.Receive.{datagram, failed, undefined, complete}
use file_transfer_over_udp.Client.Send.{
  Turn, no_time_left, waited, overwrite, store, packet_size, send_block, fill_window, on_ack,
  on_reply, on_wait, on_turn, send_turns, send_file,
}
use file_transfer_over_udp.Client.Send.Chunks.{AreFaithful}
use file_transfer_over_udp.Client.Send.Transfer.{send_file-AreFaithful}
use file_transfer_over_udp.Client.Transfer.{request_init, tftp_client_read, tftp_client_write}
use file_transfer_over_udp.Client.Transfer.Silence.{
  timeouts, repeated, tftp_client_read-timeouts, tftp_client_write-timeouts,
}
use file_transfer_over_udp.Server.Session.{Session, write_request}
use file_transfer_over_udp.Server.Session.Start.{decimal_from}
use file_transfer_over_udp.Server.Session.Handle.{run}
use file_transfer_over_udp.Server.Session.InOrder.{data_event, IsReceiving}
use file_transfer_over_udp.Transfer.Prefix.{IsBeginning}
use file_transfer_over_udp.Transfer.Put.{ArriveFrom, written_blocks, send_file-run}
use file_transfer_over_udp.Tests.Setup.{peer, server, handlers, fresh}

abbrev host : Address
host = ipv4 40069 9

-- A request with blocks of four bytes and a window of two.
abbrev writing : Request
writing = record {
  is_get = false;
  retries = 3;
  use_options = true;
  options = no_options;
  timeout_s = 2;
  block_size = 4;
  window_size = 2;
  use_tsize = false;
  tsize = 0;
  use_adaptive_timeout = false;
  last_packet_sent = [];
  packet_recv_buffer_size = 512;
  server_may_not_support_options = false;
  file_bytes_transferred = 0;
  server_addr = host;
  answers = [];
  effects = [];
}

abbrev file : Bytes
file = codes "abcdef"

-- A timeout, and the ACK of the last block.
abbrev turns : List Turn
turns = no_time_left ∷ waited (datagram host (encode_ack 2)) ∷ []

send_file-AreFaithful_example :
    ((send_file (λ i. []) [] file turns writing).0 ≢ undefined)
    × AreFaithful host 4 file (send_file (λ i. []) [] file turns writing).1.request.effects
send_file-AreFaithful_example =
    send_file-AreFaithful (λ i. []) [] file turns writing refl (omega arith) (omega arith)
      (omega arith)

abbrev acknowledged : List Turn
acknowledged = waited (datagram host (encode_ack 2)) ∷ []

send_file-complete : (send_file (λ i. []) [] file acknowledged writing).0 ≡ complete
unfolding send_file send_turns on_turn fill_window send_block send_to overwrite store slot_index
    has_room is_in_range on_wait on_reply on_ack is_ack_in_window sockaddr_equals get_opcode
    encode_ack data_packet_init packet_size
send_file-complete = refl

-- The last block first, then the first one twice, and the last one again.
abbrev arrivals : List (ℕ × Bytes)
arrivals = (2, codes "ef") ∷ (1, codes "abcd") ∷ (1, codes "abcd") ∷ (2, codes "ef") ∷ []

arrivals-ArriveFrom :
    ArriveFrom host (send_file (λ i. []) [] file acknowledged writing).1.request.effects arrivals
unfolding send_file send_turns on_turn fill_window send_block send_to overwrite store slot_index
    has_room is_in_range on_wait on_reply on_ack is_ack_in_window sockaddr_equals get_opcode
    encode_ack data_packet_init packet_size
arrivals-ArriveFrom = (
  omega arith,
  Memᴰ.tail (Memᴰ.head refl),
  (
    omega arith,
    Memᴰ.head refl,
    (omega arith, Memᴰ.head refl, (omega arith, Memᴰ.tail (Memᴰ.head refl), tt)),
  ),
)

abbrev receiving : Session
receiving = record fresh {
  request_type = write_request;
  block_size = 4;
  recv_buffer_size = 516;
  is_open = true;
}

receiving-IsReceiving : IsReceiving peer receiving
unfolding handlers
receiving-IsReceiving = record {
  is_write = refl;
  is_client = refl;
  is_known = refl;
  no_failure = refl;
  is_open = refl;
  first_block = λ h. refl;
}

send_file-run_example :
    (blocks : List Bytes) × (written_blocks
        (run server (map (data_event peer) arrivals) receiving).1.actions
      ≡ written_blocks receiving.actions ++ blocks)
    × IsBeginning 4 file blocks
unfolding handlers
send_file-run_example =
    send_file-run (λ i. []) [] file acknowledged writing server peer arrivals receiving refl
      (omega arith) (omega arith) (omega arith) arrivals-ArriveFrom receiving-IsReceiving refl refl
      refl (omega arith)

-- The user asks for a timeout of 3 seconds.
abbrev three_seconds : ClientOptions
three_seconds = record {
  timeout_s = some 3;
  block_size = none;
  window_size = none;
  use_tsize = false;
  use_adaptive_timeout = false;
  is_read_type_list = false;
}

abbrev asks_three : Bool → Request
asks_three is_get = request_init is_get 2 (some three_seconds) host []

-- The requests for the file `f`.
abbrev timeout_text : Bytes
timeout_text = codes "timeout" ++ 0 ∷ (codes "3" ++ 0 ∷ [])

abbrev asked_to_write : Bytes
asked_to_write = 0 ∷ 2 ∷ (codes "f" ++ 0 ∷ (codes "octet" ++ 0 ∷ timeout_text))

abbrev asked_to_read : Bytes
asked_to_read = 0 ∷ 1 ∷ (codes "f" ++ 0 ∷ (codes "octet" ++ 0 ∷ timeout_text))

asked_to_write-packet :
    request_packet_init wrq (codes "f" ++ 0 ∷ []) octet (asks_three false).options
    ≡ some asked_to_write
unfolding request_packet_init request_init options_init value_or is_required decimal_from
    append_options
asked_to_write-packet = refl

asked_to_read-packet :
    request_packet_init rrq (codes "f" ++ 0 ∷ []) octet (asks_three true).options
    ≡ some asked_to_read
unfolding request_packet_init request_init options_init value_or is_required decimal_from
    append_options
asked_to_read-packet = refl

tftp_client_write-timeouts_example :
    let t =
      tftp_client_write 2
        (codes "f" ++ 0 ∷ [])
        octet
        (some three_seconds)
        host
        []
        (λ i. [])
        []
        file
        (timeouts 5)
        turns in
    (t.progress ≡ failed)
    × (t.request.effects ≡ repeated 3 (packet_sent host asked_to_write))
    × (t.request.server_may_not_support_options ≡ (asks_three false).use_options)
tftp_client_write-timeouts_example =
    tftp_client_write-timeouts 2 (codes "f" ++ 0 ∷ []) asked_to_write octet three_seconds host
      (λ i. []) [] file 5 turns asked_to_write-packet (omega arith)

tftp_client_read-timeouts_example :
    let t =
      tftp_client_read 2 (codes "f" ++ 0 ∷ []) octet (some three_seconds) host [] (timeouts 5) in
    (t.progress ≡ failed)
    × (t.request.effects ≡ repeated 3 (packet_sent host asked_to_read))
    × (t.request.server_may_not_support_options ≡ (asks_three true).use_options)
tftp_client_read-timeouts_example =
    tftp_client_read-timeouts 2 (codes "f" ++ 0 ∷ []) asked_to_read octet three_seconds host 5
      asked_to_read-packet (omega arith)
