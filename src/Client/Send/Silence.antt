-- ===== src/Client/Send/Silence.antt =====
-- A server that falls silent while a file is sent: how often the client sends its window again.
use file_transfer_over_udp.Client.Send.Resent.{
  IsWaiting, resent, with_sent, resent-with_sent, IsWaiting-with_sent, resend_window_lem,
}
use file_transfer_over_udp.Prelude.{
  ℕ, zero, suc, ◌+◌, ◌-◌, ◌≡◌, refl, ap, sym, ◌∙◌, Bool, true, false, not, ◌&&◌, List, [], ◌∷◌,
  ◌++◌, take, ltb, if◌then◌else◌, arith,
}
use file_transfer_over_udp.Prelude.Words.{u8, u16}
use file_transfer_over_udp.Window.{has_room}
use file_transfer_over_udp.Client.{Effect, packet_sent, answered, succeeds}
use file_transfer_over_udp.Client.Receive.{Progress, timed_out, going, failed}
use file_transfer_over_udp.Client.Send.{
  Sender, Turn, no_time_left, waited, packet_size, packet_index, fill_window, rounds, on_timeout,
  on_wait, on_turn, send_turns,
}

-- The window of a client that waits.
abbrev pub in_window : Sender → List Effect
in_window v = resent (v.next_sequence_number - v.window_begin) v.window_begin v

-- The client after one more timeout.
abbrev pub resending : Sender → Sender
resending v = with_sent (in_window v) (record v { retransmissions = u8 (v.retransmissions + 1) })

IsWaiting-counted :
    (n : ℕ) (v : Sender) → IsWaiting v → IsWaiting (record v { retransmissions = n })
IsWaiting-counted n v w = record {
  no_failure = w.no_failure;
  has_window = w.has_window;
  is_positive = w.is_positive;
  some_sent = w.some_sent;
  no_wrap = w.no_wrap;
  is_full = w.is_full;
}

fill_window-full :
    (fuel : ℕ) (v : Sender)
    → (not v.end_of_file && has_room v.window_begin v.request.window_size v.next_sequence_number)
      ≡ false
    → fill_window fuel v ≡ (going, v)
unfolding fill_window
fill_window-full zero v h = refl
fill_window-full (suc fuel) v h = ground (arith, h)

abbrev turned : Progress × Sender → Progress × Sender
turned r = elim r.0 [ going ↦ on_timeout r.1 | other ↦ (other, r.1) ]

-- How a turn goes in which nothing arrives: no time is left for it, or `recvfrom` times out.
abbrev pub quiet : Bool → Turn
quiet true = no_time_left
quiet false = waited timed_out

abbrev pub silence : List Bool → List Turn
silence [] = []
silence (b ∷ rest) = quiet b ∷ silence rest

answered-nil : (v : Sender) → v.request.answers ≡ [] → record v { request = answered v.request } ≡ v
answered-nil v a =
    ap (λ l. record v { request = answered (record v.request { answers = l }) }) a
    ∙ ap (λ l. record v { request = record v.request { answers = l } }) (sym a)

on_wait-timed_out : (v : Sender) → v.request.answers ≡ [] → on_wait timed_out v ≡ on_timeout v
unfolding on_wait
on_wait-timed_out v a =
    let works = ap succeeds a in
    ap
      (λ b.
        if b
        then on_timeout (record v { request = answered v.request })
        else (failed, record v { request = answered v.request }))
      works
    ∙ ap on_timeout (answered-nil v a)

abbrev waited_out : Progress × Sender → Progress × Sender
waited_out r = elim r.0 [ going ↦ on_wait timed_out r.1 | other ↦ (other, r.1) ]

on_turn-waiting : (b : Bool) (v : Sender) → IsWaiting v → on_turn (quiet b) v ≡ on_timeout v
unfolding on_turn
on_turn-waiting true v w = ap turned (fill_window-full v.request.window_size v w.is_full)
on_turn-waiting false v w =
    ap waited_out (fill_window-full v.request.window_size v w.is_full)
    ∙ on_wait-timed_out v w.no_failure

resent-counted :
    (n i k : ℕ) (v : Sender) → resent n i (record v { retransmissions = k }) ≡ resent n i v
unfolding packet_size
resent-counted zero i k v = refl
resent-counted (suc n) i k v =
    ap
      (◌∷◌ (
        packet_sent v.request.server_addr
          (take (packet_size i v) (v.data_packets (packet_index v.request.window_size i)))))
      (resent-counted n (u16 (i + 1)) k v)

on_timeout-waiting :
    (v : Sender)
    → IsWaiting v
    → on_timeout v
      ≡ (if ltb v.request.retries v.retransmissions then (failed, v) else (going, resending v))
unfolding on_timeout
on_timeout-waiting v w =
    let k = u8 (v.retransmissions + 1) in
    let u = record v { retransmissions = k } in
    let order = w.some_sent in
    let small = w.no_wrap in
    let count = v.next_sequence_number - v.window_begin in
    let again =
      resend_window_lem count rounds v.window_begin u (IsWaiting-counted k v w) (omega arith)
        (omega (arith, order)) (omega (arith, small))
      ∙ ap (λ l. (going, with_sent l u)) (resent-counted count v.window_begin k v) in
    ap (λ r. if ltb v.request.retries v.retransmissions then (failed, v) else r) again

pub IsWaiting-resending : (v : Sender) → IsWaiting v → IsWaiting (resending v)
IsWaiting-resending v w =
    IsWaiting-with_sent (in_window v) (record v { retransmissions = u8 (v.retransmissions + 1) })
      (IsWaiting-counted (u8 (v.retransmissions + 1)) v w)

pub in_window-resending : (v : Sender) → in_window (resending v) ≡ in_window v
in_window-resending v =
    let count = v.next_sequence_number - v.window_begin in
    let k = u8 (v.retransmissions + 1) in
    resent-with_sent count v.window_begin (in_window v) (record v { retransmissions = k })
    ∙ resent-counted count v.window_begin k v

pub send_turns-silent :
    (b : Bool) (rest : List Bool) (v : Sender)
    → IsWaiting v
    → send_turns (silence (b ∷ rest)) v ≡ (
        if ltb v.request.retries v.retransmissions
        then (failed, v)
        else send_turns (silence rest) (resending v))
unfolding send_turns
send_turns-silent b rest v w =
    let turn = on_turn-waiting b v w ∙ on_timeout-waiting v w in ground (arith, turn)

-- The same packets, over and over.
abbrev pub times : ℕ → List Effect → List Effect
times zero l = []
times (suc n) l = l ++ times n l
