-- ===== src/Client/Send/Resend.antt =====
-- What a timeout of `send_file` sends again: the blocks in flight.
use native.Mathlib.Nat.{mod-lt}
use file_transfer_over_udp.Prelude.{
  ℕ, zero, suc, ◌+◌, ◌-◌, ◌%◌, ◌≤◌, ◌<◌, ◌≡◌, ap, ◌∙◌, true, not, take, ltb, leb, arith,
}
use file_transfer_over_udp.Prelude.Words.{Bytes, u16, u16_mod, u8, sub_u16}
use file_transfer_over_udp.Inet.{Address}
use file_transfer_over_udp.Window.{slot_index, is_ack_in_window}
use file_transfer_over_udp.Client.{Request, send_to}
use file_transfer_over_udp.Client.Send.{
  Sender, packet_size, packet_index, resend_window, rounds, on_timeout,
}
use file_transfer_over_udp.Client.Send.Chunks.{
  IsSendingTo, send_to-IsSendingTo, IsSending, Kept, Kept-if,
}
use file_transfer_over_udp.Client.Send.Faithful.{in_window_plain, block-IsFaithful}

pub packet_index_plain :
    (window i : ℕ) → 0 < i → i < u16_mod → packet_index window i ≡ slot_index window i
unfolding packet_index slot_index
packet_index_plain window zero pos small = elim pos [ ]
packet_index_plain window (suc i) pos small = ap (λ k. k % window) (omega arith)

pub slot_index-lt : (window i : ℕ) → 0 < window → slot_index window i < window
unfolding slot_index
slot_index-lt window i h = mod-lt (sub_u16 i 1) h

pub packet_size-request :
    (i size n : ℕ) (r : Request) (v : Sender)
    → r.block_size ≡ size
    → v.request.block_size ≡ size
    → packet_size i (record v { request = r; retransmissions = n }) ≡ packet_size i v
unfolding packet_size
packet_size-request i size n r v h k = ground (arith, h, k)

module _ (server : Address) (size window : ℕ) (content : Bytes) where
  abbrev Sending : Sender → Type 0
  Sending = IsSending server size window content

  -- The request and the counter may change.
  pub IsSending-request :
      (v : Sender) (r : Request) (n : ℕ)
      → Sending v
      → IsSendingTo server size window content r
      → Sending (record v { request = r; retransmissions = n })
  IsSending-request v r n w t = record {
    sends_to = t;
    is_positive = w.is_positive;
    is_ordered = w.is_ordered;
    is_within = w.is_within;
    no_wrap = w.no_wrap;
    has_rest = w.has_rest;
    has_count = w.has_count;
    is_full = w.is_full;
    is_waiting = w.is_waiting;
    in_flight = λ i lo hi.
        ap (λ k. take k (v.data_packets (slot_index window i)))
          (packet_size-request i size n r v t.has_size w.sends_to.has_size)
        ∙ w.in_flight i lo hi;
  }

  Kept-resend_window :
      (fuel i : ℕ) (v : Sender)
      → Sending v
      → 0 < window
      → v.window_begin < v.next_sequence_number
      → v.window_begin ≤ i
      → i ≤ v.next_sequence_number
      → v.next_sequence_number - i < fuel
      → Kept server size window content (resend_window fuel i v)
  unfolding resend_window
  Kept-resend_window zero i v w pos some_sent lo hi enough = elim enough [ ]
  Kept-resend_window (suc fuel) i v w pos some_sent lo hi enough =
      let slot = packet_index v.request.window_size i in
      let packet = take (packet_size i v) (v.data_packets slot) in
      let sending = send_to v.request.server_addr packet v.request in
      let small = w.no_wrap in
      let first = w.is_positive in
      let same = w.sends_to.has_window in
      let plain = in_window_plain v.window_begin v.next_sequence_number i first some_sent small in
      let inside = is_ack_in_window v.window_begin v.next_sequence_number i in
      Kept-if (not inside) (λ h. record { keeps = w })
        (λ h.
          let is_inside : inside ≡ true = ground (arith, h) in
          let bounds = plain.0 is_inside in
          let below = bounds.1 in
          let in_slot : slot ≡ slot_index window i =
            ap (λ k. packet_index k i) same
            ∙ packet_index_plain window i (omega (arith, first)) (omega (arith, below, small)) in
          let carried =
            ap (λ k. take (packet_size i v) (v.data_packets k)) in_slot ∙ w.in_flight i lo below in
          let faithful =
            block-IsFaithful server size window content i v.request.server_addr packet
              (omega (arith, first)) (omega (arith, below, small)) w.sends_to.is_server carried in
          let t =
            send_to-IsSendingTo server size window content v.request v.request.server_addr packet
              w.sends_to faithful in
          let s = IsSending-request v sending.1 v.retransmissions w t in
          Kept-if (leb v.request.window_size slot)
            (λ g.
              let behind = slot_index-lt window i pos in
              let contra : ⊥ = ground (arith, g, same, in_slot, behind) in absurd contra)
            (λ g.
              Kept-if sending.0
                (λ e.
                  Kept-resend_window fuel (u16 (i + 1)) (record v { request = sending.1 }) s pos
                    some_sent (omega (arith, lo, below, small)) (omega (arith, below, small))
                    (omega (arith, enough, below, small)))
                (λ e. record { keeps = t.are_faithful })))

  pub Kept-on_timeout :
      (v : Sender)
      → Sending v
      → 0 < window
      → v.window_begin < v.next_sequence_number
      → Kept server size window content (on_timeout v)
  unfolding on_timeout
  Kept-on_timeout v w pos some_sent =
      let small = w.no_wrap in
      let n = u8 (v.retransmissions + 1) in
      Kept-if (ltb v.request.retries v.retransmissions)
        (λ h. record { keeps = w.sends_to.are_faithful })
        (λ h.
          Kept-resend_window rounds v.window_begin (record v { retransmissions = n })
            (IsSending-request v v.request n w w.sends_to) pos some_sent (omega arith) (omega arith)
            (omega (arith, small)))
