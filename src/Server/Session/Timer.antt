-- ===== src/Server/Session/Timer.antt =====
-- `on_timeout`, `get_data_packet_info` and `set_max_retransmissions_error` of
-- tftp/src/server/session.c.
pub mod GoBackN
use file_transfer_over_udp.Prelude.{
  ℕ, zero, suc, ◌+◌, ◌-◌, Bool, true, false, not, ◌&&◌, Option, none, some, List, [], ◌∷◌, ◌++◌,
  length, take, ltb, leb, ◌==◌, if◌then◌else◌,
}
use file_transfer_over_udp.Prelude.Words.{Bytes, u8, u16, u16_mod, sub_u16}
use file_transfer_over_udp.Prelude.Text.{codes}
use file_transfer_over_udp.Wire.{not_defined}
use file_transfer_over_udp.Wire.Packet.{encode_ack}
use file_transfer_over_udp.Window.{slot_index, is_ack_in_window}
use file_transfer_over_udp.Server.Session.{
  Session, RequestType, read_request, write_request, Outcome, Answer, done, part_done, failure,
  sent, backed_off, succeeded, failed, diverged, Handler, ◌>>◌, skip, assign, reading, when,
}
use file_transfer_over_udp.Server.Session.Calls.{
  act, answer, answered, call, send, submit_timeout, recv_async_cancel, set_error, send_error_to,
}
use file_transfer_over_udp.Server.Session.Fetch.{slot_packet}

abbrev pub is_last_packet : Option ℕ → ℕ → Bool
is_last_packet none i = false
is_last_packet (some n) i = i == n

-- The packet of `get_data_packet_info`: the last one has `last_block_size` bytes of data.
unfoldable pub get_data_packet : Session → ℕ → Bytes
get_data_packet s i =
    slot_packet (s.slots (slot_index s.window_size i))
      (if is_last_packet s.last_packet i then s.last_block_size else s.block_size)

-- The loop `for (i = window_begin; is_in_range(i, window_begin, next - 1); i++)` of `on_timeout`. The
-- variable is a `uint16_t`, so `uint16_t` many rounds see every value of it, and a loop that goes on
-- then goes on for ever. A packet that is sent in part ends the handler.
unfoldable pub retransmit : ℕ → ℕ → Handler
retransmit zero i s = (diverged, s)
retransmit (suc fuel) i s =
    let t = act (sent s.client_address (get_data_packet s i)) (answered s) in
    let rest = retransmit fuel (u16 (i + 1)) t in
    let result : Outcome × Session = elim (answer s.answers) [
      | done ↦ rest
      | part_done ↦ (succeeded, t)
      | failure ↦ (failed, answered s)
    ] in
    if is_ack_in_window s.window_begin s.next_data_packet_to_send i then result else (succeeded, s)

-- The message of `set_max_retransmissions_error`, without the number that stands in it.
abbrev max_retransmissions_text : Option ℕ → Bytes
max_retransmissions_text none = codes "timeout after retransmits."
max_retransmissions_text (some n) = codes "timeout after retransmits. Missed last ack."

-- The retries are used up: the session gives up, and tells the client.
unfoldable pub give_up : Handler
give_up =
    assign (λ s. record s { should_close = true })
    >> recv_async_cancel
    >> call (λ s. set_error not_defined (max_retransmissions_text s.last_packet) s)
    >> reading (λ s. send_error_to s.client_address)

-- What is sent again: the OACK, the last ACK, or all packets of the window.
unfoldable pub send_again : Handler
send_again s =
    if s.valid_options_required && not s.options_acknowledged
    then send s.oack_packet s
    else elim s.request_type [
      | write_request ↦ send (encode_ack (sub_u16 s.expected_sequence_number 1)) s
      | read_request ↦ retransmit (u16_mod + 1) s.window_begin s
    ]

-- `on_timeout`.
unfoldable pub on_timeout : Handler
on_timeout s =
    if leb s.retries s.current_retransmission
    then give_up s
    else (assign (λ t. record t {
      current_retransmission = u8 (t.current_retransmission + 1);
      total_retransmissions = t.total_retransmissions + 1;
    })
          >> reading (λ t.
            when t.is_adaptive_timeout_active
              (assign (λ u. act backed_off (record u { is_measuring = false }))))
          >> submit_timeout
          >> send_again)
        s
