-- ===== src/Client/Send/Transfer.antt =====
-- The whole of `send_file`: what the client sends of its file, whatever happens to it.
use file_transfer_over_udp.Prelude.{
  ℕ, ◌+◌, ◌*◌, ◌≤◌, ◌<◌, ◌≡◌, ◌≢◌, refl, ap, ◌∙◌, true, false, not, ◌&&◌, Option, none, some, List,
  [], ◌∷◌, length, take, ◌==◌, if◌then◌else◌, arith,
}
use file_transfer_over_udp.Prelude.Words.{Bytes, u16, u16_mod}
use file_transfer_over_udp.Inet.{Address, sockaddr_equals}
use file_transfer_over_udp.Wire.{unknown_transfer_id, Opcode, ack, get_opcode, word_at}
use file_transfer_over_udp.Wire.Packet.{error_packet_info}
use file_transfer_over_udp.Window.{slot_index, is_ack_in_window}
use file_transfer_over_udp.Client.{Request, send_to, answered, succeeds, handle_unexpected_peer}
use file_transfer_over_udp.Client.Receive.{
  Arrival, timed_out, receive_failed, datagram, Progress, going, complete, failed, undefined,
}
use file_transfer_over_udp.Client.Send.{
  Sender, Turn, no_time_left, waited, overwrite, packet_size, fill_window, on_timeout, on_ack,
  on_reply, on_wait, on_turn, send_turns, send_file,
}
use file_transfer_over_udp.Client.Send.Chunks.{
  stranger_told, AreFaithful, IsSendingTo, send_to-IsSendingTo, IsSending, Kept, Kept-if, Kept-next,
}
use file_transfer_over_udp.Client.Send.Invariant.{max_blocks}
use file_transfer_over_udp.Client.Send.Faithful.{
  in_window_plain, answered-IsSendingTo, fill_window-Filled,
}
use file_transfer_over_udp.Client.Send.Resend.{
  packet_size-request, IsSending-request, Kept-on_timeout,
}

module _ (server : Address) (size window : ℕ) (content : Bytes) where
  abbrev Sending : Sender → Type 0
  Sending = IsSending server size window content

  -- An ACK of the window moves its beginning.
  IsSending-acknowledged :
      (v : Sender) (block_number : ℕ)
      → Sending v
      → v.window_begin ≤ block_number
      → block_number < v.next_sequence_number
      → (v.end_of_file && block_number + 1 == v.next_sequence_number) ≡ false
      → Sending (record v { window_begin = u16 (block_number + 1); retransmissions = 0 })
  unfolding packet_size
  IsSending-acknowledged v block_number w lo hi more =
      let small = w.no_wrap in
      let within = w.is_within in
      record {
        sends_to = w.sends_to;
        is_positive = omega (arith, hi, small);
        is_ordered = omega (arith, hi, small);
        is_within = omega (arith, hi, lo, small, within);
        no_wrap = w.no_wrap;
        has_rest = w.has_rest;
        has_count = w.has_count;
        is_full = λ e l. w.is_full e (omega (arith, lo, hi));
        is_waiting = λ e. ground (arith, more, e, hi, small);
        in_flight = λ i l h. w.in_flight i (omega (arith, lo, hi, l, small)) h;
      }

  Kept-on_ack :
      (v : Sender)
      → Sending v
      → v.window_begin < v.next_sequence_number
      → Kept server size window content (on_ack v)
  unfolding on_ack
  Kept-on_ack v w some_sent =
      let n = word_at v.recv_buffer 2 in
      let inside = is_ack_in_window v.window_begin v.next_sequence_number n in
      let plain =
        in_window_plain v.window_begin v.next_sequence_number n w.is_positive some_sent w.no_wrap in
      Kept-if (not inside) (λ h. record { keeps = w })
        (λ h.
          let is_inside : inside ≡ true = ground (arith, h) in
          let bounds = plain.0 is_inside in
          Kept-if (v.end_of_file && n + 1 == v.next_sequence_number)
            (λ g. record { keeps = w.sends_to.are_faithful })
            (λ g. record { keeps = IsSending-acknowledged v n w bounds.0 bounds.1 g }))

  Kept-on_reply :
      (v : Sender)
      → Sending v
      → v.window_begin < v.next_sequence_number
      → Kept server size window content (on_reply v)
  unfolding on_reply
  Kept-on_reply v w some_sent = go (get_opcode v.recv_buffer)
    where
      go :
          (o : Opcode)
          → Kept server size window content (elim o [ ack ↦ on_ack v | _ ↦ (failed, v) ])
      go ack = Kept-on_ack v w some_sent
      go _ = record { keeps = w.sends_to.are_faithful }

  handle_unexpected_peer-IsSendingTo :
      (address : Address) (r : Request)
      → IsSendingTo server size window content r
      → IsSendingTo server size window content (handle_unexpected_peer address r)
  unfolding handle_unexpected_peer
  handle_unexpected_peer-IsSendingTo address r w = go (error_packet_info unknown_transfer_id) refl
    where
      go :
          (o : Option Bytes)
          → error_packet_info unknown_transfer_id ≡ o
          → IsSendingTo server size window content
              (elim o [ none ↦ r | some packet ↦ (send_to address packet r).1 ])
      go none e = w
      go (some packet) e =
          send_to-IsSendingTo server size window content r address packet w
            (stranger_told address packet e)

  Sending-buffer :
      (v : Sender) (r : Request) (buffer : Bytes)
      → Sending v
      → IsSendingTo server size window content r
      → Sending (record v { request = r; recv_buffer = buffer })
  unfolding packet_size
  Sending-buffer v r buffer w t = record {
    sends_to = t;
    is_positive = w.is_positive;
    is_ordered = w.is_ordered;
    is_within = w.is_within;
    no_wrap = w.no_wrap;
    has_rest = w.has_rest;
    has_count = w.has_count;
    is_full = w.is_full;
    is_waiting = w.is_waiting;
    in_flight = λ i lo hi.
        ap (λ k. take k (v.data_packets (slot_index window i)))
          (packet_size-request i size v.retransmissions r v t.has_size w.sends_to.has_size)
        ∙ w.in_flight i lo hi;
  }

  Kept-on_wait :
      (a : Arrival) (v : Sender)
      → Sending v
      → 0 < window
      → v.window_begin < v.next_sequence_number
      → Kept server size window content (on_wait a v)
  unfolding on_wait
  Kept-on_wait a v w pos some_sent =
      let t = answered-IsSendingTo server size window content v.request w.sends_to in
      let x =
        IsSending-request server size window content v (answered v.request) v.retransmissions w t in
      Kept-if (succeeds v.request.answers) (λ h. go a x t) (λ h. record { keeps = t.are_faithful })
    where
      u : Sender
      u = record v { request = answered v.request }

      go :
          (a : Arrival)
          → Sending u
          → IsSendingTo server size window content (answered v.request)
          → Kept server size window content (elim a [
            | timed_out ↦ on_timeout u
            | receive_failed ↦ (failed, u)
            | datagram address packet ↦
                let x = record u {
                  recv_buffer =
                      overwrite (take u.request.packet_recv_buffer_size packet) u.recv_buffer;
                } in
                if sockaddr_equals x.request.server_addr address
                then on_reply x
                else (going, record x { request = handle_unexpected_peer address x.request })
          ])
      go timed_out x t = Kept-on_timeout server size window content u x pos some_sent
      go receive_failed x t = record { keeps = t.are_faithful }
      go (datagram address packet) x t =
          let buffer = overwrite (take u.request.packet_recv_buffer_size packet) u.recv_buffer in
          Kept-if (sockaddr_equals u.request.server_addr address)
            (λ h.
              Kept-on_reply (record u { recv_buffer = buffer })
                (Sending-buffer u u.request buffer x t) some_sent)
            (λ h. record {
              keeps =
                  Sending-buffer u (handle_unexpected_peer address u.request) buffer x
                    (handle_unexpected_peer-IsSendingTo address u.request t);
            })

  Kept-on_turn :
      (turn : Turn) (v : Sender)
      → Sending v
      → length content < max_blocks * size
      → 0 < window
      → window < u16_mod
      → Kept server size window content (on_turn turn v)
  unfolding on_turn
  Kept-on_turn turn v w bound pos hw =
      let same = w.sends_to.has_window in
      let filled =
        fill_window-Filled server size window content v.request.window_size v w bound pos hw
          (omega (arith, same)) in
      Kept-next (fill_window v.request.window_size v) filled.kept
        (λ e s. go turn s (filled.is_nonempty e))
    where
      x : Sender
      x = (fill_window v.request.window_size v).1

      go :
          (turn : Turn)
          → Sending x
          → x.window_begin < x.next_sequence_number
          → Kept server size window content
              (elim turn [ no_time_left ↦ on_timeout x | waited a ↦ on_wait a x ])
      go no_time_left s some_sent = Kept-on_timeout server size window content x s pos some_sent
      go (waited a) s some_sent = Kept-on_wait a x s pos some_sent

  Kept-send_turns :
      (turns : List Turn) (v : Sender)
      → Sending v
      → length content < max_blocks * size
      → 0 < window
      → window < u16_mod
      → Kept server size window content (send_turns turns v)
  unfolding send_turns
  Kept-send_turns [] v w bound pos hw = record { keeps = w }
  Kept-send_turns (turn ∷ turns) v w bound pos hw =
      Kept-next (on_turn turn v) (Kept-on_turn turn v w bound pos hw)
        (λ e s. Kept-send_turns turns (on_turn turn v).1 s bound pos hw)

  -- The transfer before its first block.
  IsSending-first :
      (memory : ℕ → Bytes) (buffer : Bytes) (r : Request)
      → IsSendingTo server size window content r
      → Sending (record {
        request = r;
        source = content;
        data_packets = memory;
        recv_buffer = buffer;
        last_packet_size = 0;
        window_begin = 1;
        next_sequence_number = 1;
        end_of_file = false;
        retransmissions = 0;
      })
  IsSending-first memory buffer r t = record {
    sends_to = t;
    is_positive = omega arith;
    is_ordered = omega arith;
    is_within = omega arith;
    no_wrap = omega arith;
    has_rest = refl;
    has_count = λ e. omega arith;
    is_full = λ e l. absurd (omega (arith, l));
    is_waiting = λ e. ground (arith, e);
    in_flight = λ i lo hi. absurd (omega (arith, lo, hi));
  }

  Kept-faithful :
      (r : Progress × Sender)
      → Kept server size window content r
      → (r.0 ≢ undefined) × AreFaithful server size content r.1.request.effects
  Kept-faithful (going, v) w = (λ e. ground (arith, e), w.keeps.sends_to.are_faithful)
  Kept-faithful (complete, v) w = (λ e. ground (arith, e), w.keeps)
  Kept-faithful (failed, v) w = (λ e. ground (arith, e), w.keeps)
  Kept-faithful (undefined, v) w = absurd w.keeps

-- For a file below 65534 blocks, a window of at least one and at most 65535 blocks, and whatever the
-- memory holds at first, the system answers, and the network brings, in whatever order: `send_file`
-- meets no undefined behaviour, and each packet that it sends is block `n` of the file as DATA packet
-- `n`, to the server, or the error for a packet from another address.
pub send_file-AreFaithful :
    (memory : ℕ → Bytes) (buffer content : Bytes) (turns : List Turn) (r : Request)
    → r.effects ≡ []
    → 0 < r.window_size
    → r.window_size < u16_mod
    → length content < max_blocks * r.block_size
    → ((send_file memory buffer content turns r).0 ≢ undefined)
      × AreFaithful r.server_addr r.block_size content
          (send_file memory buffer content turns r).1.request.effects
unfolding send_file
send_file-AreFaithful memory buffer content turns r none_yet pos hw bound =
    let faithful : AreFaithful r.server_addr r.block_size content r.effects = rw none_yet tt in
    let t : IsSendingTo r.server_addr r.block_size r.window_size content (answered r) = record {
      is_server = refl;
      has_size = refl;
      has_window = refl;
      are_faithful = faithful;
    } in
    Kept-faithful r.server_addr r.block_size r.window_size content
      (send_file memory buffer content turns r)
      (Kept-if (succeeds r.answers)
        (λ h.
          Kept-send_turns r.server_addr r.block_size r.window_size content turns _
            (IsSending-first r.server_addr r.block_size r.window_size content memory buffer
              (answered r) t)
            bound pos hw)
        (λ h. record { keeps = faithful }))
