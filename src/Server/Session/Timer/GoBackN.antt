-- ===== src/Server/Session/Timer/GoBackN.antt =====
-- What a timeout sends again: the whole window in order, and what happens when the window is empty.
use mathlib.Core.List.{append-nil, append_assoc}
use file_transfer_over_udp.Prelude.{
  ℕ, zero, suc, ◌+◌, ◌-◌, ◌≤◌, ◌<◌, ◌≡◌, refl, ap, sym, ◌∙◌, true, false, not, ◌&&◌, Bool-cases,
  inl, inr, List, [], ◌∷◌, ◌++◌, map, arith,
}
use file_transfer_over_udp.Prelude.Words.{u8, u16, u16_mod}
use file_transfer_over_udp.Window.{is_ack_in_window}
use file_transfer_over_udp.Window.Range.{is_ack_in_window_iff, is_ack_in_window_empty}
use file_transfer_over_udp.Server.Session.{
  Session, read_request, Action, sent, submitted, timeout_job, Outcome, succeeded, diverged,
  combinators,
}
use file_transfer_over_udp.Server.Session.Calls.{
  act, answered, later_answers, timeout_started, submit_timeout_lem,
}
use file_transfer_over_udp.Server.Session.Timer.{
  get_data_packet, retransmit, send_again, on_timeout,
}

-- The `n` block numbers from `b` on.
abbrev pub blocks : ℕ → ℕ → List ℕ
blocks b zero = []
blocks b (suc n) = b ∷ blocks (u16 (b + 1)) n

abbrev pub sent_packets : Session → List ℕ → List Action
sent_packets s = map (λ i. sent s.client_address (get_data_packet s i))

abbrev next_round : ℕ → Session → Session
next_round i s = act (sent s.client_address (get_data_packet s i)) (answered s)

retransmit_step :
    (fuel i : ℕ) (s : Session)
    → s.answers ≡ []
    → is_ack_in_window s.window_begin s.next_data_packet_to_send i ≡ true
    → retransmit (suc fuel) i s ≡ retransmit fuel (u16 (i + 1)) (next_round i s)
unfolding retransmit
retransmit_step fuel i s a h = ground arith

retransmit_stop :
    (fuel i : ℕ) (s : Session)
    → is_ack_in_window s.window_begin s.next_data_packet_to_send i ≡ false
    → retransmit (suc fuel) i s ≡ (succeeded, s)
unfolding retransmit
retransmit_stop fuel i s h = ground arith

-- What the loop has done, if it sends the packets of `is` and stops.
abbrev Sends : Session → List ℕ → Outcome × Session → Type 0
Sends s is r = (r.0 ≡ succeeded) × (r.1.actions ≡ s.actions ++ sent_packets s is)

-- From `n` blocks before the end the loop sends the rest of the window and stops.
retransmit_lem :
    (n fuel i total : ℕ) (s : Session)
    → s.answers ≡ []
    → s.window_begin < u16_mod
    → total < u16_mod
    → s.next_data_packet_to_send ≡ u16 (s.window_begin + total)
    → i ≡ u16 (s.window_begin + (total - n))
    → 0 < total
    → n ≤ total
    → n < fuel
    → Sends s (blocks i n) (retransmit fuel i s)
unfolding get_data_packet
retransmit_lem n zero i total s a hb ht en ei hp hn hf = elim hf [ ]
retransmit_lem zero (suc fuel) i total s a hb ht en ei hp hn hf =
    rw (retransmit_stop fuel i s outside) (refl, sym (append-nil s.actions))
  where
    outside : is_ack_in_window s.window_begin s.next_data_packet_to_send i ≡ false
    outside = elim (Bool-cases (is_ack_in_window s.window_begin s.next_data_packet_to_send i)) [
      | inl t ↦ absurd (
          omega (
            arith,
            (is_ack_in_window_iff s.window_begin total i hb (omega arith) hp ht).0 (rw en at t),
          ))
      | inr f ↦ f
    ]
retransmit_lem (suc n) (suc fuel) i total s a hb ht en ei hp hn hf =
    let later =
      retransmit_lem n fuel (u16 (i + 1)) total (next_round i s) (ap later_answers a) hb ht en
        (omega arith) hp (omega arith) (omega arith) in
    rw (retransmit_step fuel i s a inside) (later.0, later.1 ∙ append_assoc s.actions _ _)
  where
    inside : is_ack_in_window s.window_begin s.next_data_packet_to_send i ≡ true
    inside =
        rw en ((is_ack_in_window_iff s.window_begin total i hb (omega arith) hp ht).1 (omega arith))

abbrev counted : Session → Session
counted s = record s {
  current_retransmission = u8 (s.current_retransmission + 1);
  total_retransmissions = s.total_retransmissions + 1;
}

-- A session that has counted the retransmission and started the timeout again.
abbrev retrying : Session → Session
retrying s = timeout_started (counted s)

on_timeout-retransmit :
    (s : Session)
    → s.request_type ≡ read_request
    → (s.valid_options_required && not s.options_acknowledged) ≡ false
    → s.is_adaptive_timeout_active ≡ false
    → s.current_retransmission < s.retries
    → s.answers ≡ []
    → on_timeout s ≡ retransmit (u16_mod + 1) s.window_begin (retrying s)
unfolding on_timeout send_again combinators
on_timeout-retransmit s r p na h a = ground (arith, submit_timeout_lem (counted s) a)

-- When a timeout comes in a read request with retries left, with from 1 to 65535 packets in flight,
-- no options to be acknowledged any more and a fixed timeout, and the system takes what is sent,
-- then the session starts the timeout again and sends every packet in flight once, from the oldest
-- to the newest.
pub on_timeout_sends_window :
    (s : Session) (total : ℕ)
    → s.request_type ≡ read_request
    → (s.valid_options_required && not s.options_acknowledged) ≡ false
    → s.is_adaptive_timeout_active ≡ false
    → s.current_retransmission < s.retries
    → s.answers ≡ []
    → s.window_begin < u16_mod
    → 0 < total
    → total < u16_mod
    → s.next_data_packet_to_send ≡ u16 (s.window_begin + total)
    → ((on_timeout s).0 ≡ succeeded)
      × ((on_timeout s).1.actions
          ≡ (s.actions ++ submitted timeout_job ∷ [])
            ++ sent_packets s (blocks s.window_begin total))
unfolding get_data_packet
on_timeout_sends_window s total r p na h a hb hp ht en = rw (on_timeout-retransmit s r p na h a) (
    retransmit_lem total (u16_mod + 1) s.window_begin total (retrying s) (ap later_answers a) hb ht
      en (omega arith) hp (omega arith) (omega arith))

-- With an empty window the loop never ends, as every block number is taken for one in flight.
retransmit_empty :
    (fuel i : ℕ) (s : Session)
    → s.answers ≡ []
    → s.window_begin < u16_mod
    → i < u16_mod
    → s.next_data_packet_to_send ≡ s.window_begin
    → (retransmit fuel i s).0 ≡ diverged
unfolding retransmit
retransmit_empty zero i s a hb hi e = refl
retransmit_empty (suc fuel) i s a hb hi e =
    let all = is_ack_in_window_empty s.window_begin i hb hi in
    ap (λ r. r.0) (retransmit_step fuel i s a (rw e all))
    ∙ retransmit_empty fuel (u16 (i + 1)) (next_round i s) (ap later_answers a) hb (omega arith) e

-- A timeout in a read request with retries left, no options to be acknowledged any more and a fixed
-- timeout, but with no packet in flight, is never handled to an end when the system takes what is
-- sent.
pub on_timeout_empty :
    (s : Session)
    → s.request_type ≡ read_request
    → (s.valid_options_required && not s.options_acknowledged) ≡ false
    → s.is_adaptive_timeout_active ≡ false
    → s.current_retransmission < s.retries
    → s.answers ≡ []
    → s.window_begin < u16_mod
    → s.next_data_packet_to_send ≡ s.window_begin
    → (on_timeout s).0 ≡ diverged
on_timeout_empty s r p na h a hb e =
    ap (λ t. t.0) (on_timeout-retransmit s r p na h a)
    ∙ retransmit_empty (u16_mod + 1) s.window_begin (retrying s) (ap later_answers a) hb hb e
