-- ===== src/Client/Send/Wrapped.antt =====
-- A write request whose last block is number 65535: the next block number has wrapped to 0.
use file_transfer_over_udp.Prelude.{
  ℕ, zero, suc, ◌+◌, ◌≡◌, ◌≢◌, refl, ap, Bool, true, false, not, ◌&&◌, List, [], ◌∷◌, ltb, leb,
  ◌==◌, if◌then◌else◌, take, arith,
}
use file_transfer_over_udp.Prelude.Words.{u8, u16}
use file_transfer_over_udp.Inet.{sockaddr_equals}
use file_transfer_over_udp.Wire.{Opcode, ack, get_opcode, word_at}
use file_transfer_over_udp.Window.{is_ack_in_window}
use file_transfer_over_udp.Client.{succeeds, answered, send_to, handle_unexpected_peer}
use file_transfer_over_udp.Client.Receive.{
  Arrival, timed_out, receive_failed, datagram, Progress, going, complete, failed, undefined,
}
use file_transfer_over_udp.Client.Send.{
  Sender, Turn, no_time_left, waited, overwrite, packet_size, packet_index, fill_window,
  resend_window, rounds, on_timeout, on_ack, on_reply, on_wait, on_turn, send_turns,
}

abbrev is_complete : Progress → Bool
is_complete complete = true
is_complete _ = false

-- A step that does not complete the transfer, and leaves the next block number at 0 behind the end of the
-- file.
record Stuck (r : Progress × Sender) : Type 0 where
  at_end : r.1.end_of_file ≡ true
  at_zero : r.1.next_sequence_number ≡ 0
  is_open : is_complete r.0 ≡ false

Stuck-if :
    {x y : Progress × Sender} (b : Bool)
    → (b ≡ true → Stuck x)
    → (b ≡ false → Stuck y)
    → Stuck (if b then x else y)
Stuck-if true h k = h refl
Stuck-if false h k = k refl

unchanged :
    (v : Sender) (p : Progress)
    → v.end_of_file ≡ true
    → v.next_sequence_number ≡ 0
    → is_complete p ≡ false
    → Stuck (p, v)
unchanged v p e z o = record { at_end = e; at_zero = z; is_open = o }

resend_window-Stuck :
    (fuel i : ℕ) (v : Sender)
    → v.end_of_file ≡ true
    → v.next_sequence_number ≡ 0
    → Stuck (resend_window fuel i v)
unfolding resend_window
resend_window-Stuck zero i v e z = unchanged v undefined e z refl
resend_window-Stuck (suc fuel) i v e z =
    let slot = packet_index v.request.window_size i in
    let sending =
      send_to v.request.server_addr (take (packet_size i v) (v.data_packets slot)) v.request in
    let u = record v { request = sending.1 } in
    let later = resend_window-Stuck fuel (u16 (i + 1)) u e z in
    Stuck-if (not (is_ack_in_window v.window_begin v.next_sequence_number i))
      (λ h. unchanged v going e z refl)
      (λ h.
        Stuck-if (leb v.request.window_size slot) (λ g. unchanged v undefined e z refl)
          (λ g. Stuck-if sending.0 (λ f. later) (λ f. unchanged u failed e z refl)))

on_timeout-Stuck :
    (v : Sender) → v.end_of_file ≡ true → v.next_sequence_number ≡ 0 → Stuck (on_timeout v)
unfolding on_timeout
on_timeout-Stuck v e z =
    let u = record v { retransmissions = u8 (v.retransmissions + 1) } in
    let again = resend_window-Stuck rounds v.window_begin u e z in
    Stuck-if (ltb v.request.retries v.retransmissions) (λ h. unchanged v failed e z refl)
      (λ h. again)

never_last : (b : Bool) (n next : ℕ) → next ≡ 0 → (b && n + 1 == next) ≡ true → ⊥
never_last b n next z h = ground (arith, z, h)

on_ack-Stuck : (v : Sender) → v.end_of_file ≡ true → v.next_sequence_number ≡ 0 → Stuck (on_ack v)
unfolding on_ack
on_ack-Stuck v e z =
    let n = word_at v.recv_buffer 2 in
    let u = record v { window_begin = u16 (n + 1); retransmissions = 0 } in
    Stuck-if (not (is_ack_in_window v.window_begin v.next_sequence_number n))
      (λ h. unchanged v going e z refl)
      (λ h.
        Stuck-if (v.end_of_file && n + 1 == v.next_sequence_number)
          (λ g. absurd (never_last v.end_of_file n v.next_sequence_number z g))
          (λ g. unchanged u going e z refl))

on_reply-Stuck :
    (v : Sender) → v.end_of_file ≡ true → v.next_sequence_number ≡ 0 → Stuck (on_reply v)
unfolding on_reply
on_reply-Stuck v e z = go (get_opcode v.recv_buffer)
  where
    go : (o : Opcode) → Stuck (elim o [ ack ↦ on_ack v | _ ↦ (failed, v) ])
    go ack = on_ack-Stuck v e z
    go _ = unchanged v failed e z refl

on_wait-Stuck :
    (a : Arrival) (v : Sender)
    → v.end_of_file ≡ true
    → v.next_sequence_number ≡ 0
    → Stuck (on_wait a v)
unfolding on_wait
on_wait-Stuck a v e z =
    Stuck-if (succeeds v.request.answers) (λ h. go a) (λ h. unchanged u failed e z refl)
  where
    u : Sender
    u = record v { request = answered v.request }

    go :
        (a : Arrival)
        → Stuck (elim a [
          | timed_out ↦ on_timeout u
          | receive_failed ↦ (failed, u)
          | datagram address packet ↦
              let x = record u {
                recv_buffer =
                    overwrite (take u.request.packet_recv_buffer_size packet) u.recv_buffer;
              } in
              if sockaddr_equals x.request.server_addr address
              then on_reply x
              else (going, record x { request = handle_unexpected_peer address x.request })
        ])
    go timed_out = on_timeout-Stuck u e z
    go receive_failed = unchanged u failed e z refl
    go (datagram address packet) =
        let x = record u {
          recv_buffer = overwrite (take u.request.packet_recv_buffer_size packet) u.recv_buffer;
        } in
        Stuck-if (sockaddr_equals u.request.server_addr address) (λ h. on_reply-Stuck x e z)
          (λ h.
            unchanged (record x { request = handle_unexpected_peer address x.request }) going e z
              refl)

fill_window-end : (fuel : ℕ) (v : Sender) → v.end_of_file ≡ true → fill_window fuel v ≡ (going, v)
unfolding fill_window
fill_window-end zero v e = refl
fill_window-end (suc fuel) v e = ground (arith, e)

on_turn-no_time_left : (v : Sender) → v.end_of_file ≡ true → on_turn no_time_left v ≡ on_timeout v
unfolding on_turn
on_turn-no_time_left v e =
    ap
      (λ (r : Progress × Sender). elim r.0 as (λ p. Progress × Sender) [
        | going ↦ on_timeout r.1
        | other ↦ (other, r.1)
      ])
      (fill_window-end v.request.window_size v e)

on_turn-waited :
    (a : Arrival) (v : Sender) → v.end_of_file ≡ true → on_turn (waited a) v ≡ on_wait a v
unfolding on_turn
on_turn-waited a v e =
    ap
      (λ (r : Progress × Sender). elim r.0 as (λ p. Progress × Sender) [
        | going ↦ on_wait a r.1
        | other ↦ (other, r.1)
      ])
      (fill_window-end v.request.window_size v e)

on_turn-Stuck :
    (turn : Turn) (v : Sender)
    → v.end_of_file ≡ true
    → v.next_sequence_number ≡ 0
    → Stuck (on_turn turn v)
on_turn-Stuck no_time_left v e z = rw (on_turn-no_time_left v e) (on_timeout-Stuck v e z)
on_turn-Stuck (waited a) v e z = rw (on_turn-waited a v e) (on_wait-Stuck a v e z)

send_turns-Stuck :
    (turns : List Turn) (v : Sender)
    → v.end_of_file ≡ true
    → v.next_sequence_number ≡ 0
    → Stuck (send_turns turns v)
unfolding send_turns
send_turns-Stuck [] v e z = unchanged v going e z refl
send_turns-Stuck (turn ∷ rest) v e z =
    go (on_turn turn v) (on_turn-Stuck turn v e z) (λ t. send_turns-Stuck rest t)
  where
    go :
        (r : Progress × Sender)
        → Stuck r
        → ((t : Sender)
            → t.end_of_file ≡ true
            → t.next_sequence_number ≡ 0
            → Stuck (send_turns rest t))
        → Stuck (elim r.0 [ going ↦ send_turns rest r.1 | other ↦ (other, r.1) ])
    go (going, t) w later = later t w.at_end w.at_zero
    go (complete, t) w later = w
    go (failed, t) w later = w
    go (undefined, t) w later = w

-- Once the last block of a file has been sent and the next block number has wrapped to 0, which is so for a
-- last block of number 65535, the transfer is never complete, whatever is acknowledged and whatever
-- happens.
pub send_turns-wrapped :
    (turns : List Turn) (v : Sender)
    → v.end_of_file ≡ true
    → v.next_sequence_number ≡ 0
    → (send_turns turns v).0 ≢ complete
send_turns-wrapped turns v e z done =
    let w = send_turns-Stuck turns v e z in
    let stays = w.is_open in ground (arith, stays, ap is_complete done)
