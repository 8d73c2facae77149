-- ===== src/Client/Send/Faithful.antt =====
-- What a client sends of its file: every step of `send_file` keeps the invariant.
use native.Mathlib.Decide.{dec_lt}
use file_transfer_over_udp.Prelude.{
  ℕ, zero, suc, ◌+◌, ◌-◌, ◌*◌, ◌≤◌, ◌<◌, ◌≡◌, ◌↔◌, refl, ap, sym, ◌∙◌, Bool, true, false, not, ◌&&◌,
  Bool-cases, inl, inr, ◌++◌, length, take, ◌==◌, if◌then◌else◌, arith,
}
use file_transfer_over_udp.Prelude.Words.{Bytes, u16, u16_mod}
use file_transfer_over_udp.Inet.{Address}
use file_transfer_over_udp.Wire.Packet.{data_packet_init}
use file_transfer_over_udp.Window.{slot_index, has_room, is_ack_in_window, is_in_range}
use file_transfer_over_udp.Window.Range.{has_room_iff}
use file_transfer_over_udp.Client.{Request, packet_sent, send_to, answered, succeeds}
use file_transfer_over_udp.Client.Receive.{Progress, going, complete, failed, undefined}
use file_transfer_over_udp.Client.Send.{Sender, send_block, fill_window}
use file_transfer_over_udp.Client.Send.Chunks.{
  chunk, IsFaithful, block_sent, IsSendingTo, send_to-IsSendingTo, IsSending, Kept, Kept-if,
}
use file_transfer_over_udp.Client.Send.Invariant.{
  next_memory, max_blocks, take-overwrite, IsSending-sent_block, next_payload,
}

-- For a window without a wrap the tests on block numbers are the plain ones.
pub has_room_plain :
    (begin next window : ℕ)
    → begin ≤ next
    → next < u16_mod
    → 0 < window
    → window < u16_mod
    → (has_room begin window next ≡ true) ↔ (next < begin + window)
has_room_plain begin next window order small pos hw =
    let same : u16 (begin + (next - begin)) ≡ next = omega arith in
    let plain = has_room_iff begin window (next - begin) (omega arith) pos hw (omega arith) in
    (
      λ h. omega (arith, plain.0 (ap (has_room begin window) same ∙ h)),
      λ h. ap (has_room begin window) (sym same) ∙ plain.1 (omega arith),
    )

pub in_window_plain :
    (begin next block : ℕ)
    → 0 < begin
    → begin < next
    → next < u16_mod
    → (is_ack_in_window begin next block ≡ true) ↔ ((begin ≤ block) × (block < next))
unfolding is_ack_in_window is_in_range
in_window_plain begin next block pos order small = (λ h. ground (arith, h), λ h. ground (arith, h))

send_block-going :
    (v : Sender)
    → (send_block v).0 ≡ going
    → ((send_block v).1.next_sequence_number ≡ u16 (v.next_sequence_number + 1))
      × ((send_block v).1.window_begin ≡ v.window_begin)
unfolding send_block
send_block-going v h = ground (arith, h)

module _ (server : Address) (size window : ℕ) (content : Bytes) where
  abbrev Sending : Sender → Type 0
  Sending = IsSending server size window content

  abbrev To : Request → Type 0
  To = IsSendingTo server size window content

  pub answered-IsSendingTo : (r : Request) → To r → To (answered r)
  answered-IsSendingTo r w = record {
    is_server = w.is_server;
    has_size = w.has_size;
    has_window = w.has_window;
    are_faithful = w.are_faithful;
  }

  pub block-IsFaithful :
      (n : ℕ) (address : Address) (packet : Bytes)
      → 0 < n
      → n < u16_mod
      → address ≡ server
      → packet ≡ data_packet_init n ++ chunk size n content
      → IsFaithful server size content (packet_sent address packet)
  block-IsFaithful n address packet pos small a p = rw a (rw p (block_sent n pos small))

  Kept-send_block :
      (v : Sender)
      → Sending v
      → v.end_of_file ≡ false
      → v.next_sequence_number < v.window_begin + window
      → length content < max_blocks * size
      → window < u16_mod
      → Kept server size window content (send_block v)
  unfolding send_block
  Kept-send_block v w more room bound hw =
      let pos = w.is_positive in
      let order = w.is_ordered in
      let payload = take v.request.block_size v.source in
      let carried =
        take-overwrite v.next_sequence_number payload
          (v.data_packets (slot_index v.request.window_size v.next_sequence_number))
        ∙ ap (data_packet_init v.next_sequence_number ++◌)
            (next_payload server size window content v w) in
      let faithful =
        block-IsFaithful v.next_sequence_number v.request.server_addr
          (take (4 + length payload) (next_memory v)) (omega (arith, pos, order)) w.no_wrap
          w.sends_to.is_server carried in
      let t =
        send_to-IsSendingTo server size window content (answered v.request) v.request.server_addr
          (take (4 + length payload) (next_memory v)) (answered-IsSendingTo v.request w.sends_to)
          faithful in
      let sending =
        send_to v.request.server_addr (take (4 + length payload) (next_memory v))
          (answered v.request) in
      Kept-if (not (succeeds v.request.answers)) (λ h. record { keeps = w.sends_to.are_faithful })
        (λ h.
          Kept-if sending.0
            (λ g. record {
              keeps = IsSending-sent_block server size window content v _ w t more room bound hw;
            })
            (λ g. record { keeps = t.are_faithful }))

  -- The sending phase leaves a window that is not empty.
  pub record Filled (r : Progress × Sender) : Type 0 where
    pub kept : Kept server size window content r
    pub is_nonempty : r.0 ≡ going → r.1.window_begin < r.1.next_sequence_number

  Filled-if :
      {x y : Progress × Sender} (b : Bool)
      → (b ≡ true → Filled x)
      → (b ≡ false → Filled y)
      → Filled (if b then x else y)
  Filled-if true h k = h refl
  Filled-if false h k = k refl

  Filled-next :
      {rest : Progress × Sender} (r : Progress × Sender)
      → Kept server size window content r
      → (r.0 ≡ going → Sending r.1 → Filled rest)
      → Filled (elim r.0 [ going ↦ rest | other ↦ (other, r.1) ])
  Filled-next (going, v) w h = h refl w.keeps
  Filled-next (complete, v) w h = record { kept = w; is_nonempty = λ e. ground (arith, e) }
  Filled-next (failed, v) w h = record { kept = w; is_nonempty = λ e. ground (arith, e) }
  Filled-next (undefined, v) w h = record { kept = w; is_nonempty = λ e. ground (arith, e) }

  pub fill_window-Filled :
      (fuel : ℕ) (v : Sender)
      → Sending v
      → length content < max_blocks * size
      → 0 < window
      → window < u16_mod
      → window ≤ v.next_sequence_number - v.window_begin + fuel
      → Filled (fill_window fuel v)
  unfolding fill_window
  fill_window-Filled zero v w bound pos hw enough = record {
    kept = record { keeps = w };
    is_nonempty = λ h. omega arith;
  }
  fill_window-Filled (suc fuel) v w bound pos hw enough =
      let order = w.is_ordered in
      let small = w.no_wrap in
      let same = w.sends_to.has_window in
      let plain = has_room_plain v.window_begin v.next_sequence_number window order small pos hw in
      let to_window = ap (λ k. has_room v.window_begin k v.next_sequence_number) same in
      let room = has_room v.window_begin v.request.window_size v.next_sequence_number in
      let waiting = w.is_waiting in
      Filled-if (not v.end_of_file && room)
        (λ h.
          let more : v.end_of_file ≡ false = ground (arith, h) in
          let is_room : room ≡ true = ground (arith, h) in
          let free = plain.0 (sym to_window ∙ is_room) in
          let kept = Kept-send_block v w more free bound hw in
          Filled-if (v.request.window_size == 0) (λ z. ground (arith, same, z))
            (λ z. Filled-next (send_block v) kept (λ g s.
              let moved = send_block-going v g in
              let ordered = s.is_ordered in
              let in_range = s.no_wrap in
              let m0 = moved.0 in
              let m1 = moved.1 in
              fill_window-Filled fuel (send_block v).1 s bound pos hw
                (omega (arith, m0, m1, ordered, in_range, enough, free)))))
        (λ h. record {
          kept = record { keeps = w };
          is_nonempty = λ g. elim (Bool-cases v.end_of_file) [
            | inl e ↦ w.is_waiting e
            | inr e ↦ elim (dec_lt v.window_begin v.next_sequence_number) [
              | yes p ↦ p
              | no p ↦
                  let is_room = to_window ∙ plain.1 (omega arith) in ground (arith, h, e, is_room)
            ]
          ];
        })
