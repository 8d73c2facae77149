-- ===== src/Tests/Setup.antt =====
-- A client, a server, a disk and requests for the runs.
use file_transfer_over_udp.Prelude.{Bool, true, none, some, [], ◌∷◌, ◌++◌}
use file_transfer_over_udp.Prelude.Words.{Bytes}
use file_transfer_over_udp.Prelude.Text.{codes, cstring, after_string, text_eq_fold}
use file_transfer_over_udp.Wire.Packet.{encode_ack}
use file_transfer_over_udp.Inet.{Address, ipv4}
use file_transfer_over_udp.Server.Session.{Session}
use file_transfer_over_udp.Server.Session.Receive.{datagram}
use file_transfer_over_udp.Server.Session.Files.{FileSystem, opened, open_error, enoent}
use file_transfer_over_udp.Server.Session.Start.{ServerInfo}
use file_transfer_over_udp.Server.Session.Handle.{
  Event, packet_received, session_init, run, handle_event, dispatch, on_start, fetch_next,
  should_fetch_data, close_or_idle, send_first_ack,
}
use file_transfer_over_udp.Server.Session.{combinators}
use file_transfer_over_udp.Server.Session.Calls.{
  recv_async, submit, call, submit_timeout, submit_cancel_timeout, send, send_to, send_error_to,
}
use file_transfer_over_udp.Server.Session.Fetch.{
  fetch_data_octet_async, on_data_available, on_read, data_read, create_data_packets,
  send_next_packet,
}
use file_transfer_over_udp.Server.Session.Receive.{
  on_packet_received, on_client_packet, on_ack, accept_ack, on_data, accept_data, write_data,
}
use file_transfer_over_udp.Server.Session.Start.{
  start, identify, open_request, with_file, prepare, is_request_valid, token_length,
  session_options_init, parse_mode, asks_directory, session_parse_options,
}
use file_transfer_over_udp.Server.Session.Files.{session_file_init}
use file_transfer_over_udp.Wire.{get_opcode}
use file_transfer_over_udp.Wire.Packet.{data_packet_init}
use file_transfer_over_udp.Inet.{sockaddr_equals, has_known_family}
use file_transfer_over_udp.Window.{is_ack_in_window, is_in_range, has_room, slot_index}

abbrev pub peer : Address
peer = ipv4 40000 7

abbrev pub server : ServerInfo
server = record {
  root = some (codes "/srv");
  retries = 3;
  timeout = 2;
  is_adaptive_timeout_enabled = true;
  is_write_request_enabled = true;
  is_list_request_enabled = true;
}

abbrev pub disk : FileSystem
disk = record {
  open_read = λ path. opened (codes "hello") true (some 5);
  open_write = λ path. open_error enoent;
  entries = λ path. none;
  can_pipe = true;
  can_set_pipe_size = λ text. true;
  can_write_pipe = λ text. true;
  can_allocate = true;
}

abbrev pub small_read : Bytes
small_read =
    0 ∷ 1 ∷ (codes "f" ++ 0 ∷ (codes "octet" ++ 0 ∷ (codes "blksize" ++ 0 ∷ (codes "8" ++ 0 ∷ []))))

abbrev pub plain_read : Bytes
plain_read = 0 ∷ 1 ∷ (codes "f" ++ 0 ∷ (codes "octet" ++ 0 ∷ []))

abbrev pub write_file : Bytes
write_file = 0 ∷ 2 ∷ (codes "f" ++ 0 ∷ (codes "octet" ++ 0 ∷ []))

abbrev pub from_peer : Bytes → Event
from_peer packet = packet_received (datagram peer packet)

-- Every handler, for the runs.
unfoldable pub handlers : Bool
unfolding combinators handle_event dispatch on_start start identify open_request with_file prepare
    fetch_next should_fetch_data close_or_idle run is_request_valid token_length
    session_options_init parse_mode asks_directory session_file_init session_parse_options
    recv_async submit call submit_timeout submit_cancel_timeout send send_to send_error_to
    fetch_data_octet_async on_data_available on_read data_read create_data_packets send_next_packet
    on_packet_received on_client_packet on_ack accept_ack on_data accept_data write_data get_opcode
    data_packet_init encode_ack cstring after_string text_eq_fold sockaddr_equals has_known_family
    is_ack_in_window is_in_range has_room slot_index session_init send_first_ack
handlers = true

abbrev pub fresh : Session
fresh = session_init server peer []
