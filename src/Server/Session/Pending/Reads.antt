-- ===== src/Server/Session/Pending/Reads.antt =====
-- The handlers of a timeout and of a read keep the count of pending jobs.
use file_transfer_over_udp.Prelude.{ℕ, zero, suc, ◌+◌, ◌≡◌, refl, false, arith}
use file_transfer_over_udp.Prelude.Words.{u8, u16, u16_mod, sub_u16}
use file_transfer_over_udp.Server.Session.{
  Session, data_job, sent, measure_started, backed_off, ◌>>◌, assign, reading, when,
}
use file_transfer_over_udp.Server.Session.Calls.{act, answered, submit_timeout}
use file_transfer_over_udp.Server.Session.Fetch.{
  ReadResult, read_error, read_upto, fetch_data_octet_async, fetch_data_netascii_async,
  send_next_packet, on_read_error, on_read, on_data_available, data_read, store_block,
  create_data_packets, netascii_block,
}
use file_transfer_over_udp.Server.Session.Timer.{
  get_data_packet, retransmit, give_up, send_again, on_timeout,
}
use file_transfer_over_udp.Wire.Packet.{encode_ack}
use file_transfer_over_udp.Server.Session.Pending.{
  Balanced, Balanced->>, Balanced-reading, Balanced-when, Balanced-assign, Balanced-call,
  act-IsBalanced, send-Balanced, submit-Balanced, submit_timeout-Balanced, send_error_to-Balanced,
  recv_async_cancel-Balanced,
}

-- The handlers of a timeout.
retransmit-Balanced : (fuel i : ℕ) → Balanced (retransmit fuel i)
unfolding retransmit
retransmit-Balanced zero i = record { at = λ s. refl }
retransmit-Balanced (suc fuel) i = record {
  at = λ s.
      let packet = sent s.client_address (get_data_packet s i) in
      let one = act-IsBalanced (answered s) packet refl in
      let rest = (retransmit-Balanced fuel (u16 (i + 1))).at (act packet (answered s)) in
      ground (arith, one, rest);
}

give_up-Balanced : Balanced give_up
unfolding give_up
give_up-Balanced =
    Balanced->>
      (Balanced->> (Balanced->> (Balanced-assign _ λ s. refl) recv_async_cancel-Balanced)
        (Balanced-call _ λ s. refl))
      (Balanced-reading λ s. send_error_to-Balanced _)

send_again-Balanced : Balanced send_again
unfolding send_again
send_again-Balanced = record {
  at = λ s.
      let options = (send-Balanced s.oack_packet).at s in
      let last_ack = (send-Balanced (encode_ack (sub_u16 s.expected_sequence_number 1))).at s in
      let window = (retransmit-Balanced (u16_mod + 1) s.window_begin).at s in
      ground (arith, options, last_ack, window);
}

pub on_timeout-Balanced : Balanced on_timeout
unfolding on_timeout
on_timeout-Balanced = record {
  at = λ s. let last = give_up-Balanced.at s in let more = retry.at s in ground (arith, last, more);
}
  where
    retry : Balanced (
        assign (λ t. record t {
          current_retransmission = u8 (t.current_retransmission + 1);
          total_retransmissions = t.total_retransmissions + 1;
        })
        >> reading (λ t.
          when t.is_adaptive_timeout_active
            (assign (λ u. act backed_off (record u { is_measuring = false }))))
        >> submit_timeout
        >> send_again)
    retry =
        Balanced->>
          (Balanced->>
            (Balanced->> (Balanced-assign _ λ s. refl) (
              Balanced-reading
                λ s. Balanced-when _ (Balanced-assign _ λ t. act-IsBalanced t backed_off refl)))
            submit_timeout-Balanced)
          send_again-Balanced

-- The handlers of a read.
pub fetch_data_octet_async-Balanced : Balanced fetch_data_octet_async
unfolding fetch_data_octet_async
fetch_data_octet_async-Balanced =
    Balanced->> (Balanced-assign _ λ s. refl) (submit-Balanced data_job)

pub fetch_data_netascii_async-Balanced : Balanced fetch_data_netascii_async
unfolding fetch_data_netascii_async
fetch_data_netascii_async-Balanced = record {
  at = λ s.
      let kept = (submit-Balanced data_job).at (store_block (netascii_block s) s) in
      ground (arith, kept);
}

send_next_packet-Balanced : Balanced send_next_packet
unfolding send_next_packet
send_next_packet-Balanced =
    Balanced->>
      (Balanced->>
        (Balanced->>
          (Balanced->>
            (Balanced-reading
              λ s. Balanced-when _ (Balanced-assign _ λ t. act-IsBalanced t measure_started refl))
            (Balanced-reading λ s. send-Balanced _))
          (Balanced-assign _ λ s. refl))
        (Balanced-reading λ s. Balanced-when _ submit_timeout-Balanced))
      (Balanced-assign _ λ s. refl)

on_read_error-Balanced : Balanced on_read_error
unfolding on_read_error
on_read_error-Balanced =
    Balanced->> (Balanced-assign _ λ s. refl) (Balanced-reading λ s. send_error_to-Balanced _)

-- Storing what was read touches neither the count nor the actions.
create_data_packets_keeps :
    (n : ℕ) (s : Session)
    → ((create_data_packets n s).1.pending_jobs ≡ s.pending_jobs)
      × ((create_data_packets n s).1.actions ≡ s.actions)
unfolding create_data_packets
create_data_packets_keeps n s = ground arith

data_read_keeps :
    (n : ℕ) (s : Session)
    → ((data_read n s).0.pending_jobs ≡ s.pending_jobs) × ((data_read n s).0.actions ≡ s.actions)
unfolding data_read
data_read_keeps n s = (refl, refl)

on_read-Balanced : (n : ℕ) → Balanced (on_read n)
unfolding on_read
on_read-Balanced n = record {
  at = λ s.
      let r = data_read n s in
      let same = data_read_keeps n s in
      let kept = create_data_packets_keeps r.1 r.0 in
      let next = send_next_packet-Balanced.at (create_data_packets r.1 r.0).1 in
      ground (arith, same, kept, next);
}

pub on_data_available-Balanced : (r : ReadResult) → Balanced (on_data_available r)
unfolding on_data_available
on_data_available-Balanced read_error = record {
  at = λ s.
      let give = on_read_error-Balanced.at s in
      let next = send_next_packet-Balanced.at s in ground (arith, give, next);
}
on_data_available-Balanced (read_upto n) = record {
  at = λ s.
      let more = (on_read-Balanced n).at s in
      let give = on_read_error-Balanced.at s in
      let next = send_next_packet-Balanced.at s in ground (arith, more, give, next);
}
