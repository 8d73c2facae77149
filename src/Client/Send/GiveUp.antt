-- ===== src/Client/Send/GiveUp.antt =====
-- The end of a write request whose server falls silent.
use mathlib.Core.List.{append-nil, append_assoc}
use file_transfer_over_udp.Prelude.{
  ℕ, zero, suc, ◌+◌, ◌≤◌, ◌<◌, ◌≡◌, refl, ap, sym, ◌∙◌, Bool, List, [], ◌∷◌, length, true, false,
  ltb, ◌++◌, if◌then◌else◌, arith,
}
use file_transfer_over_udp.Client.Receive.{going, failed}
use file_transfer_over_udp.Client.Send.{Sender, send_turns}
use file_transfer_over_udp.Client.Send.Resent.{IsWaiting}
use file_transfer_over_udp.Client.Send.Silence.{
  IsWaiting-resending, in_window, in_window-resending, resending, silence, send_turns-silent, times,
}

-- What was sent, with one more window.
times-suc :
    (n : ℕ) (v : Sender)
    → (resending v).request.effects ++ times n (in_window (resending v))
      ≡ v.request.effects ++ times (suc n) (in_window v)
times-suc n v =
    ap (λ l. (v.request.effects ++ in_window v) ++ times n l) (in_window-resending v)
    ∙ append_assoc v.request.effects (in_window v) (times n (in_window v))

-- A client with fewer than 255 retries that has blocks in flight, whose numbers have not wrapped, that can
-- send no further one, and that hears nothing, either since no time is left or since `recvfrom` times out,
-- while the system takes what is sent: it sends its whole window again until it has done so once more than
-- its retries, and fails with the next timeout.
pub send_turns-silence :
    (left : ℕ) (turns : List Bool) (v : Sender)
    → IsWaiting v
    → v.request.retries < 255
    → v.retransmissions + left ≡ v.request.retries + 1
    → left < length turns
    → ((send_turns (silence turns) v).0 ≡ failed)
      × ((send_turns (silence turns) v).1.request.effects
          ≡ v.request.effects ++ times left (in_window v))
send_turns-silence left [] v w small more enough = elim enough [ ]
send_turns-silence zero (b ∷ turns) v w small more enough =
    let step = send_turns-silent b turns v w in
    let over : ltb v.request.retries v.retransmissions ≡ true = ground (arith, more) in
    let to =
      step ∙ ap (λ b. if b then (failed, v) else send_turns (silence turns) (resending v)) over in
    (ap (λ r. r.0) to, ap (λ r. r.1.request.effects) to ∙ sym (append-nil v.request.effects))
send_turns-silence (suc left) (b ∷ turns) v w small more enough =
    let step = send_turns-silent b turns v w in
    let again : ltb v.request.retries v.retransmissions ≡ false = ground (arith, more) in
    let u = resending v in
    let later =
      send_turns-silence left turns u (IsWaiting-resending v w) small (omega (arith, more, small))
        (omega (arith, enough)) in
    let to = step ∙ ap (λ b. if b then (failed, v) else send_turns (silence turns) u) again in
    (ap (λ r. r.0) to ∙ later.0, ap (λ r. r.1.request.effects) to ∙ later.1 ∙ times-suc left v)

-- With 255 retries the counter of eight bits never passes them: a client that has blocks in flight, whose
-- numbers have not wrapped, that can send no further one, and that hears nothing, either since no time is
-- left or since `recvfrom` times out, while the system takes what is sent, sends its whole window again with
-- each timeout, and never fails, however long it takes.
pub send_turns-silence_forever :
    (turns : List Bool) (v : Sender)
    → IsWaiting v
    → v.request.retries ≡ 255
    → v.retransmissions ≤ 255
    → ((send_turns (silence turns) v).0 ≡ going)
      × ((send_turns (silence turns) v).1.request.effects
          ≡ v.request.effects ++ times (length turns) (in_window v))
unfolding send_turns
send_turns-silence_forever [] v w most few = (refl, sym (append-nil v.request.effects))
send_turns-silence_forever (b ∷ turns) v w most few =
    let step = send_turns-silent b turns v w in
    let again : ltb v.request.retries v.retransmissions ≡ false = ground (arith, most, few) in
    let u = resending v in
    let later = send_turns-silence_forever turns u (IsWaiting-resending v w) most (omega arith) in
    let to = step ∙ ap (λ b. if b then (failed, v) else send_turns (silence turns) u) again in
    (
      ap (λ r. r.0) to ∙ later.0,
      ap (λ r. r.1.request.effects) to ∙ later.1 ∙ times-suc (length turns) v,
    )
