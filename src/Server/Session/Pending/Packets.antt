-- ===== src/Server/Session/Pending/Packets.antt =====
-- The handlers of a packet keep the count of pending jobs.
use file_transfer_over_udp.Prelude.{take, ℕ, ◌+◌, refl, true, drop, arith}
use file_transfer_over_udp.Prelude.Words.{Bytes}
use file_transfer_over_udp.Inet.{Address}
use file_transfer_over_udp.Server.Session.{measure_stopped, written}
use file_transfer_over_udp.Server.Session.Calls.{answered}
use file_transfer_over_udp.Server.Session.Receive.{
  Received, receive_error, datagram, get_cumulative_ackd_payload_size, report_client_error,
  write_data, accept_data, on_data, accept_ack, on_ack, refuse_packet, refuse_stranger,
  on_client_packet, on_packet_received,
}
use file_transfer_over_udp.Wire.{word_at}
use file_transfer_over_udp.Server.Session.Pending.{
  Balanced, Balanced->>, Balanced-reading, Balanced-when, Balanced-if, Balanced-assign,
  Balanced-call, act-IsBalanced, send-Balanced, submit_timeout-Balanced,
  submit_cancel_timeout-Balanced, send_error_to-Balanced,
}

-- The handlers of a packet.
write_data-Balanced : (payload : Bytes) → Balanced (write_data payload)
unfolding write_data
write_data-Balanced payload = record {
  at = λ s. let one = act-IsBalanced (answered s) (written payload) refl in ground (arith, one);
}

accept_data-Balanced : (n : ℕ) (payload : Bytes) → Balanced (accept_data n payload)
unfolding accept_data
accept_data-Balanced n payload =
    Balanced->>
      (Balanced->> (Balanced->> (write_data-Balanced payload) (Balanced-assign _ λ s. refl))
        (send-Balanced _))
      (Balanced-assign _ λ s. refl)

on_data-Balanced : (n : ℕ) (payload : Bytes) → Balanced (on_data n payload)
unfolding on_data
on_data-Balanced n payload = record {
  at = λ s.
      let first = (accept_data-Balanced n payload).at (record s { options_acknowledged = true }) in
      let later = (accept_data-Balanced n payload).at s in ground (arith, first, later);
}

accept_ack-Balanced : (n : ℕ) → Balanced (accept_ack n)
unfolding accept_ack
accept_ack-Balanced n =
    Balanced->>
      (Balanced->>
        (Balanced->>
          (Balanced->> (Balanced-assign _ λ s. refl) (
            Balanced-reading
              λ s. Balanced-when _ (Balanced-assign _ λ t. act-IsBalanced t measure_stopped refl)))
          submit_cancel_timeout-Balanced)
        (Balanced-reading λ s. Balanced-when _ submit_timeout-Balanced))
      (Balanced-assign _ λ s. refl)

on_ack-Balanced : (n : ℕ) → Balanced (on_ack n)
unfolding on_ack
on_ack-Balanced n = record {
  at = λ s.
      let first = (accept_ack-Balanced n).at (record s { options_acknowledged = true }) in
      let later =
        (accept_ack-Balanced n).at
          (record s { bytes_sent = s.bytes_sent + get_cumulative_ackd_payload_size s n }) in
      ground (arith, first, later);
}

refuse_packet-Balanced : Balanced refuse_packet
unfolding refuse_packet
refuse_packet-Balanced =
    Balanced->> (Balanced-assign _ λ s. refl) (Balanced-reading λ s. send_error_to-Balanced _)

refuse_stranger-Balanced : (address : Address) → Balanced (refuse_stranger address)
unfolding refuse_stranger
refuse_stranger-Balanced address =
    Balanced->> (Balanced->> (Balanced-assign _ λ s. refl) (send_error_to-Balanced address))
      (Balanced-assign _ λ s. refl)

report_client_error-Balanced : (packet : Bytes) → Balanced (report_client_error packet)
unfolding report_client_error
report_client_error-Balanced packet =
    Balanced-if _ (Balanced-assign _ λ s. refl) (Balanced-call _ λ s. refl)

on_client_packet-Balanced : (packet : Bytes) → Balanced (on_client_packet packet)
unfolding on_client_packet
on_client_packet-Balanced packet = record {
  at = λ s.
      let report = (report_client_error-Balanced packet).at (record s { should_close = true }) in
      let refusal = refuse_packet-Balanced.at s in
      let data_packet = (on_data-Balanced (word_at packet 2) (drop 4 packet)).at s in
      let ack_packet = (on_ack-Balanced (word_at packet 2)).at s in
      ground (arith, report, refusal, data_packet, ack_packet);
}

pub on_packet_received-Balanced : (r : Received) → Balanced (on_packet_received r)
unfolding on_packet_received
on_packet_received-Balanced receive_error = record { at = λ s. refl }
on_packet_received-Balanced (datagram address packet) = record {
  at = λ s.
      let refusal = (refuse_stranger-Balanced address).at s in
      let accepted = (on_client_packet-Balanced (take s.recv_buffer_size packet)).at s in
      ground (arith, refusal, accepted);
}
