-- ===== src/Tests/Ends.antt =====
-- The ends of write requests, the size of a file and the set-up of sockets, at concrete values.
use file_transfer_over_udp.Prelude.{
  ℕ, List, ◌+◌, ◌≡◌, ◌≢◌, refl, Bool, true, false, none, some, [], ◌∷◌, ◌++◌, length, arith,
}
use file_transfer_over_udp.Prelude.Words.{Bytes}
use file_transfer_over_udp.Prelude.Text.{codes, text_eq}
use file_transfer_over_udp.Wire.Options.{no_options}
use file_transfer_over_udp.Wire.Packet.{zeros, encode_ack}
use file_transfer_over_udp.Wire.Packet.RoundTrip.{length-zeros}
use file_transfer_over_udp.Inet.{Address, ipv4, has_known_family}
use file_transfer_over_udp.Server.Listener.{
  Candidate, Translation, translated, tftp_server_listener_init, bind_first, fail2, fail, call,
  setsockopt_err,
}
use file_transfer_over_udp.Server.Listener.Balance.{
  opens, closes, takes, frees, held, closed_twice, tftp_server_listener_init-calls,
}
use file_transfer_over_udp.Inet.Translate.{sockaddr_in6_to_in, sockaddr_in6, in_addr}
use file_transfer_over_udp.Server.Connection.{
  SessionConnection, session_connection_init, bind_socket, without_port,
}
use file_transfer_over_udp.Window.{has_room, is_in_range}
use file_transfer_over_udp.Io.{regular, file_size_netascii}
use file_transfer_over_udp.Io.Count.{
  netascii_length, stale_controls, full_reads, file_size_netascii_count,
}
use file_transfer_over_udp.Client.{Request}
use file_transfer_over_udp.Client.Receive.{datagram, going, complete, failed}
use file_transfer_over_udp.Client.Send.{Sender, waited, send_turns, send_file}
use file_transfer_over_udp.Client.Send.Resent.{IsWaiting}
use file_transfer_over_udp.Client.Send.Silence.{in_window, silence, times}
use file_transfer_over_udp.Client.Send.GiveUp.{send_turns-silence, send_turns-silence_forever}
use file_transfer_over_udp.Client.Send.Complete.{acks}
use file_transfer_over_udp.Client.Send.Acknowledged.{send_file-acknowledged}
use file_transfer_over_udp.Client.Send.Wrapped.{send_turns-wrapped}

-- A file of six bytes with a line feed, in a buffer of zeros.
abbrev two_lines : Bytes
two_lines = codes "ab" ++ 10 ∷ codes "cde"

file_size_netascii_count_example :
    file_size_netascii true
      (some (regular (length two_lines)))
      true
      (zeros 4096)
      two_lines
      (full_reads 1)
      true
    ≡ some (netascii_length two_lines + stale_controls 0 6 (zeros 4096) two_lines)
file_size_netascii_count_example =
    file_size_netascii_count 0 6 two_lines (zeros 4096) refl (omega arith) (omega arith)
      (length-zeros 4096)

abbrev host : Address
host = ipv4 40069 9

-- A request with blocks of four bytes and `retries` retries.
abbrev request_of : ℕ → ℕ → Request
request_of retries window = record {
  is_get = false;
  retries = retries;
  use_options = true;
  options = no_options;
  timeout_s = 2;
  block_size = 4;
  window_size = window;
  use_tsize = false;
  tsize = 0;
  use_adaptive_timeout = false;
  last_packet_sent = [];
  packet_recv_buffer_size = 512;
  server_may_not_support_options = false;
  file_bytes_transferred = 0;
  server_addr = host;
  answers = [];
  effects = [];
}

-- Blocks 1 and 2 are in flight.
abbrev waiting : ℕ → Sender
waiting retries = record {
  request = request_of retries 2;
  source = codes "rest";
  data_packets = λ i. zeros 8;
  recv_buffer = [];
  last_packet_size = 8;
  window_begin = 1;
  next_sequence_number = 3;
  end_of_file = false;
  retransmissions = 0;
}

waiting-IsWaiting : (retries : ℕ) → IsWaiting (waiting retries)
unfolding has_room is_in_range
waiting-IsWaiting retries = record {
  no_failure = refl;
  has_window = omega arith;
  is_positive = omega arith;
  some_sent = omega arith;
  no_wrap = omega arith;
  is_full = refl;
}

-- `recvfrom` times out, no time is left, and so on.
abbrev five_turns : List Bool
five_turns = false ∷ true ∷ false ∷ false ∷ true ∷ []

send_turns-silence_example :
    ((send_turns (silence five_turns) (waiting 3)).0 ≡ failed)
    × ((send_turns (silence five_turns) (waiting 3)).1.request.effects
        ≡ (waiting 3).request.effects ++ times 4 (in_window (waiting 3)))
send_turns-silence_example =
    send_turns-silence 4 five_turns (waiting 3) (waiting-IsWaiting 3) (omega arith) refl
      (omega arith)

send_turns-silence_forever_example :
    ((send_turns (silence five_turns) (waiting 255)).0 ≡ going)
    × ((send_turns (silence five_turns) (waiting 255)).1.request.effects
        ≡ (waiting 255).request.effects ++ times (length five_turns) (in_window (waiting 255)))
send_turns-silence_forever_example =
    send_turns-silence_forever five_turns (waiting 255) (waiting-IsWaiting 255) refl (omega arith)

host-is_known : has_known_family host ≡ true
unfolding has_known_family
host-is_known = refl

send_file-acknowledged_example :
    let t = send_file (λ i. []) [] (codes "abcdef") (acks host 2 1) (request_of 3 1) in
    (t.0 ≡ complete) × (t.1.source ≡ []) × (t.1.request.file_bytes_transferred ≡ 6)
send_file-acknowledged_example =
    send_file-acknowledged (λ i. []) [] (codes "abcdef") 1 (request_of 3 1) refl refl host-is_known
      (omega arith) (omega arith) (omega arith) (omega arith)

-- Block 65535 is the last one and in flight.
abbrev wrapped : Sender
wrapped = record (waiting 3) {
  source = [];
  window_begin = 65535;
  next_sequence_number = 0;
  end_of_file = true;
}

send_turns-wrapped_example :
    (send_turns (waited (datagram host (encode_ack 65535)) ∷ []) wrapped).0 ≢ complete
send_turns-wrapped_example =
    send_turns-wrapped (waited (datagram host (encode_ack 65535)) ∷ []) wrapped refl refl

-- An address whose socket is `fd`, and which `bind` refuses.
abbrev refused : ℕ → Candidate
refused fd = record {
  address = host;
  socket = some fd;
  reuse_addr = true;
  orig_dst_addr = true;
  not_v6only = true;
  has_string = true;
  is_bound = false;
}

abbrev two_refused : Bool → Translation
two_refused is_ipv6 = translated (refused 3 ∷ refused 4 ∷ [])

tftp_server_listener_init-calls_example :
    let r = tftp_server_listener_init true false two_refused in
    (opens 4 r.1.calls + closed_twice true false 4 (two_refused false)
      ≡ closes 4 r.1.calls + held 4 r)
    × (takes r.1.calls ≡ frees r.1.calls)
tftp_server_listener_init-calls_example = tftp_server_listener_init-calls 4 true false two_refused

-- The last descriptor is opened once and closed twice.
two_refused-closes : closes 4 (tftp_server_listener_init true false two_refused).1.calls ≡ 2
unfolding tftp_server_listener_init bind_first fail2 fail call setsockopt_err
two_refused-closes = refl

-- A server with an IPv4 socket sets up a session for an IPv4 client: the address of the client is lost.
abbrev for_client : Bool × SessionConnection
for_client =
    session_connection_init (sockaddr_in6_to_in true none)
      (record { allocated = true; socket = some 5; is_bound = true; name = some (ipv4 5000 0) })
      (ipv4 69 7) host true

for_client-client_address : for_client.1.client_address ≡ ipv4 40069 0
unfolding session_connection_init bind_socket without_port sockaddr_in6_to_in sockaddr_in6 in_addr
    text_eq
for_client-client_address = refl
