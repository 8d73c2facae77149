-- ===== src/Client/Send/Resent.antt =====
-- What the client sends when it sends its window again, while the system takes it.
use mathlib.Core.List.{append-nil, append_assoc}
use native.Mathlib.Nat.{mod-lt}
use file_transfer_over_udp.Prelude.{
  ℕ, zero, suc, ◌+◌, ◌≤◌, ◌<◌, ◌≡◌, refl, ap, sym, ◌∙◌, true, false, not, ◌&&◌, Bool-cases, inl,
  inr, List, [], ◌∷◌, ◌++◌, take, leb, arith,
}
use file_transfer_over_udp.Prelude.Words.{u16, u16_mod}
use file_transfer_over_udp.Window.{has_room, is_ack_in_window}
use file_transfer_over_udp.Client.{Effect, packet_sent, send_to}
use file_transfer_over_udp.Client.Receive.{going}
use file_transfer_over_udp.Client.Send.{Sender, packet_size, packet_index, resend_window}
use file_transfer_over_udp.Client.Send.Faithful.{in_window_plain}

-- A client that has blocks in flight and no room, or nothing left, to send another one.
pub record IsWaiting (v : Sender) : Type 0 where
  pub no_failure : v.request.answers ≡ []
  pub has_window : 0 < v.request.window_size
  pub is_positive : 0 < v.window_begin
  pub some_sent : v.window_begin < v.next_sequence_number
  pub no_wrap : v.next_sequence_number < u16_mod
  pub is_full :
      (not v.end_of_file && has_room v.window_begin v.request.window_size v.next_sequence_number)
      ≡ false

-- The packets of `n` blocks from `i` on.
abbrev pub resent : ℕ → ℕ → Sender → List Effect
resent zero i v = []
resent (suc n) i v =
    packet_sent v.request.server_addr
      (take (packet_size i v) (v.data_packets (packet_index v.request.window_size i)))
    ∷ resent n (u16 (i + 1)) v

abbrev pub with_sent : List Effect → Sender → Sender
with_sent l v = record v {
  request = record v.request { effects = v.request.effects ++ l; answers = [] };
}

pub resent-with_sent :
    (n i : ℕ) (l : List Effect) (v : Sender) → resent n i (with_sent l v) ≡ resent n i v
unfolding packet_size
resent-with_sent zero i l v = refl
resent-with_sent (suc n) i l v =
    ap
      (◌∷◌ (
        packet_sent v.request.server_addr
          (take (packet_size i v) (v.data_packets (packet_index v.request.window_size i)))))
      (resent-with_sent n (u16 (i + 1)) l v)

resend_window-step :
    (fuel i : ℕ) (v : Sender)
    → v.request.answers ≡ []
    → is_ack_in_window v.window_begin v.next_sequence_number i ≡ true
    → leb v.request.window_size (packet_index v.request.window_size i) ≡ false
    → resend_window (suc fuel) i v ≡ resend_window fuel (u16 (i + 1)) (with_sent (resent 1 i v) v)
unfolding resend_window send_to
resend_window-step fuel i v a inside slot = ground (arith, a, inside, slot)

resend_window-stop :
    (fuel i : ℕ) (v : Sender)
    → is_ack_in_window v.window_begin v.next_sequence_number i ≡ false
    → resend_window (suc fuel) i v ≡ (going, v)
unfolding resend_window
resend_window-stop fuel i v outside = ground (arith, outside)

slot-in_window :
    (window i : ℕ) → 0 < window → 0 < i → i < u16_mod → leb window (packet_index window i) ≡ false
unfolding packet_index
slot-in_window window zero some_room pos small = elim pos [ ]
slot-in_window window (suc i) some_room pos small =
    let below = mod-lt i some_room in ground (arith, below)

pub IsWaiting-with_sent : (l : List Effect) (v : Sender) → IsWaiting v → IsWaiting (with_sent l v)
IsWaiting-with_sent l v w = record {
  no_failure = refl;
  has_window = w.has_window;
  is_positive = w.is_positive;
  some_sent = w.some_sent;
  no_wrap = w.no_wrap;
  is_full = w.is_full;
}

with_sent-nil : (v : Sender) → v.request.answers ≡ [] → v ≡ with_sent [] v
with_sent-nil v a =
    ap (λ l. record v { request = record v.request { effects = l; answers = v.request.answers } })
      (sym (append-nil v.request.effects))
    ∙ ap
        (λ b. record v {
          request = record v.request { effects = v.request.effects ++ []; answers = b };
        })
        a

with_sent-append :
    (a b : List Effect) (v : Sender) → with_sent b (with_sent a v) ≡ with_sent (a ++ b) v
with_sent-append a b v =
    ap (λ l. record v { request = record v.request { effects = l; answers = [] } })
      (append_assoc v.request.effects a b)

pub resend_window_lem :
    (n fuel i : ℕ) (v : Sender)
    → IsWaiting v
    → v.window_begin ≤ i
    → i + n ≡ v.next_sequence_number
    → n < fuel
    → resend_window fuel i v ≡ (going, with_sent (resent n i v) v)
resend_window_lem n zero i v w lo last enough = elim enough [ ]
resend_window_lem zero (suc fuel) i v w lo last enough =
    let plain =
      in_window_plain v.window_begin v.next_sequence_number i w.is_positive w.some_sent w.no_wrap in
    let inside = is_ack_in_window v.window_begin v.next_sequence_number i in
    elim (Bool-cases inside) [
      | inl t ↦ let below = (plain.0 t).1 in absurd (omega (arith, below, last))
      | inr f ↦ resend_window-stop fuel i v f ∙ ap (λ x. (going, x)) (with_sent-nil v w.no_failure)
    ]
resend_window_lem (suc n) (suc fuel) i v w lo last enough =
    let plain =
      in_window_plain v.window_begin v.next_sequence_number i w.is_positive w.some_sent w.no_wrap in
    let small = w.no_wrap in
    let first = w.is_positive in
    let inside = plain.1 (lo, omega (arith, last)) in
    let slot =
      slot-in_window v.request.window_size i w.has_window (omega (arith, first))
        (omega (arith, last, small)) in
    let u = with_sent (resent 1 i v) v in
    let later =
      resend_window_lem n fuel (u16 (i + 1)) u (IsWaiting-with_sent (resent 1 i v) v w)
        (omega (arith, lo, last, small)) (omega (arith, last, small)) (omega (arith, enough)) in
    resend_window-step fuel i v w.no_failure inside slot
    ∙ later
    ∙ ap (λ l. (going, with_sent l u)) (resent-with_sent n (u16 (i + 1)) (resent 1 i v) v)
    ∙ ap (λ x. (going, x)) (with_sent-append (resent 1 i v) (resent n (u16 (i + 1)) v) v)
