-- ===== src/Server/Session/Receive.antt =====
-- `on_packet_received`, `report_client_error` and `get_cumulative_ackd_payload_size` of
-- tftp/src/server/session.c.
use file_transfer_over_udp.Prelude.{
  ℕ, ◌+◌, ◌*◌, true, false, not, ◌&&◌, length, take, drop, ltb, ◌==◌, if◌then◌else◌,
}
use file_transfer_over_udp.Prelude.Words.{Bytes, u16, sub_u16}
use file_transfer_over_udp.Prelude.Text.{codes, cstring, strlen}
use file_transfer_over_udp.Wire.{
  block, ack, error, not_defined, unknown_transfer_id, illegal_operation, get_opcode, word_at,
}
use file_transfer_over_udp.Wire.Packet.{encode_ack}
use file_transfer_over_udp.Window.{is_in_range, is_ack_in_window}
use file_transfer_over_udp.Inet.{Address, sockaddr_equals, has_known_family}
use file_transfer_over_udp.Server.Session.{
  Session, read_request, write_request, written, measure_stopped, failure, succeeded, failed,
  Handler, ◌>>◌, assign, reading, when,
}
use file_transfer_over_udp.Server.Session.Calls.{
  act, answer, answered, call, send, submit_timeout, submit_cancel_timeout, set_error,
  send_error_to,
}
use file_transfer_over_udp.Server.Session.Timer.{is_last_packet}

-- How the event of a receive comes: it failed, or a datagram came from an address.
pub data Received : Type 0 where
  receive_error : Received
  datagram : Address → Bytes → Received

-- `get_cumulative_ackd_payload_size`.
unfoldable pub get_cumulative_ackd_payload_size : Session → ℕ → ℕ
get_cumulative_ackd_payload_size s block_number =
    s.block_size * sub_u16 block_number s.window_begin
    + (if is_last_packet s.last_packet block_number then s.last_block_size else s.block_size)

-- `report_client_error`: the error of the client's packet, with its message if a terminator ends it.
-- The copy of the message is allocated.
unfoldable pub report_client_error : Bytes → Handler
report_client_error packet =
    let message = drop 4 packet in
    let report = λ (text : Bytes) (s : Session). record s {
      error = record { error_occurred = true; number = word_at packet 2; message = text };
    } in
    if strlen message == length message
    then assign (report (codes "Error message received was invalid (not null terminated)."))
    else call (report (cstring message))

-- `write(...)` of a block, which fails without a file. A failure is noted in the session before the handler returns `false`.
unfoldable pub write_data : Bytes → Handler
write_data payload s =
    let result = if s.is_open then answer s.answers else failure in
    elim result [
      | failure ↦ (failed, set_error not_defined (codes "Error writing to disk") (answered s))
      | _ ↦ (succeeded, act (written payload) (answered s))
    ]

-- The case of a DATA packet in a write request. A block 1 acknowledges the options; any other must be
-- the expected one, or the packet is ignored.
unfoldable pub accept_data : ℕ → Bytes → Handler
accept_data block_number payload =
    write_data payload
    >> assign (λ s. record s { bytes_sent = s.bytes_sent + length payload })
    >> send (encode_ack block_number)
    >> assign (λ s. record s {
      expected_sequence_number = u16 (s.expected_sequence_number + 1);
      packets_acked = s.packets_acked + 1;
      current_retransmission = 0;
      should_close = ltb (length payload) s.block_size;
    })

unfoldable pub on_data : ℕ → Bytes → Handler
on_data block_number payload s =
    if not s.options_acknowledged && s.valid_options_required && block_number == 1
    then accept_data block_number payload (record s { options_acknowledged = true })
    else if block_number == s.expected_sequence_number
    then accept_data block_number payload s
    else (succeeded, s)

-- The window moves behind the acknowledged block, and the timeout with it.
unfoldable pub accept_ack : ℕ → Handler
accept_ack block_number =
    assign (λ s. record s { window_begin = u16 (block_number + 1) })
    >> reading (λ s.
      when
        (s.is_adaptive_timeout_active
          && s.is_measuring
          && is_in_range block_number s.measured_block (sub_u16 s.next_data_packet_to_send 1))
        (assign (λ t. act measure_stopped (record t { is_measuring = false }))))
    >> submit_cancel_timeout
    >> reading (λ s. when (not (s.window_begin == s.next_data_packet_to_send)) submit_timeout)
    >> assign (λ s. record s {
      packets_acked = s.packets_acked + 1;
      current_retransmission = 0;
      should_close = is_last_packet s.last_packet block_number;
    })

-- The case of an ACK in a read request. An ACK of block 0 acknowledges the options; any other must be
-- of a block in the window, or the packet is ignored.
unfoldable pub on_ack : ℕ → Handler
on_ack block_number s =
    if not s.options_acknowledged && s.valid_options_required && block_number == 0
    then accept_ack block_number (record s { options_acknowledged = true })
    else if is_ack_in_window s.window_begin s.next_data_packet_to_send block_number
    then accept_ack block_number
        (record s { bytes_sent = s.bytes_sent + get_cumulative_ackd_payload_size s block_number })
    else (succeeded, s)

-- A packet that the request does not expect ends the session.
unfoldable pub refuse_packet : Handler
refuse_packet =
    assign (λ s.
      set_error illegal_operation (codes "Unexpected packet opcode.")
        (record s { should_close = true }))
    >> reading (λ s. send_error_to s.client_address)

-- A packet from someone else is answered with an error, which is forgotten again.
unfoldable pub refuse_stranger : Address → Handler
refuse_stranger address =
    assign (set_error unknown_transfer_id (codes "Unknown transfer ID."))
    >> send_error_to address
    >> assign (λ s. record s { error = record s.error { error_occurred = false } })

-- A packet of the client, by its opcode.
unfoldable pub on_client_packet : Bytes → Handler
on_client_packet packet s = elim (get_opcode packet) [
  | error ↦ report_client_error packet (record s { should_close = true })
  | block ↦ elim s.request_type [
    | read_request ↦ refuse_packet s
    | write_request ↦ on_data (word_at packet 2) (drop 4 packet) s
  ]
  | ack ↦ elim s.request_type [
    | write_request ↦ refuse_packet s
    | read_request ↦ on_ack (word_at packet 2) s
  ]
  | _ ↦ refuse_packet s
]

-- `on_packet_received`. Of a datagram that is longer than the receive buffer, the rest is lost.
unfoldable pub on_packet_received : Received → Handler
on_packet_received receive_error s = (failed, s)
on_packet_received (datagram address whole) s =
    let packet = take s.recv_buffer_size whole in
    if ltb (length packet) 4
    then (succeeded, s)
    else if not (has_known_family address)
    then (succeeded, s)
    else if not (sockaddr_equals address s.client_address)
    then refuse_stranger address s
    else on_client_packet packet s
