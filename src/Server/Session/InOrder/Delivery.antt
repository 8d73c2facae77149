-- ===== src/Server/Session/InOrder/Delivery.antt =====
-- A write request delivers its file: `tftp_session_handle_event` on the DATA packets of a client.
use file_transfer_over_udp.Prelude.{
  ℕ, ◌+◌, ◌<◌, ◌≤◌, length, ◌≡◌, sym, ap, ◌∙◌, Bool, true, false, not, List, [], ◌∷◌, ◌++◌, map,
  if◌then◌else◌, arith, Bool-cases, inl, inr,
}
use mathlib.Core.Path.{subst}
use mathlib.Core.List.{append_assoc, append-nil}
use file_transfer_over_udp.Prelude.Words.{Bytes, u16_mod}
use file_transfer_over_udp.Inet.{Address}
use file_transfer_over_udp.Wire.Packet.{encode_ack}
use file_transfer_over_udp.Server.Session.{
  Session, Action, sent, written, reported, write_request, succeeded, failed, diverged, submitted,
  packet_job,
}
use file_transfer_over_udp.Server.Session.Steps.{>>-succeeded, assign_lem, reading_lem, when-false}
use file_transfer_over_udp.Server.Session.Calls.{job_done}
use file_transfer_over_udp.Server.Session.Receive.{Received}
use file_transfer_over_udp.Server.Session.Start.{ServerInfo}
use file_transfer_over_udp.Server.Session.Handle.{
  Event, SessionState, idle, error, hung, packet_received, dispatch, fetch_next, close_or_idle,
  handle_event, run,
}
use file_transfer_over_udp.Server.Session.InOrder.{
  data_event, IsReceiving-job_done, visible, visible-append, receive_in_order, IsReceiving,
  received, after_data, dispatch-data, fetch_next-write,
}

-- What `run` does with the result of an event.
abbrev continue : ServerInfo → List Event → SessionState × Session → SessionState × Session
continue info rest r = elim r.0 [ idle ↦ run info rest r.1 | other ↦ (other, r.1) ]

handle_event-write :
    (info : ServerInfo) (e : Event) (s t : Session)
    → dispatch info e s ≡ (succeeded, t)
    → t.request_type ≡ write_request
    → handle_event info e s ≡ close_or_idle t
unfolding handle_event
handle_event-write info e s t d w =
    let whole = >>-succeeded (dispatch info e) fetch_next d (fetch_next-write t w) in
    ap
      (λ r. elim r.0 [
        | succeeded ↦ close_or_idle r.1
        | failed ↦ (error, r.1)
        | diverged ↦ (hung, r.1)
      ])
      whole

run-step :
    (info : ServerInfo) (e : Event) (rest : List Event) (s t : Session)
    → dispatch info e s ≡ (succeeded, t)
    → t.request_type ≡ write_request
    → run info (e ∷ rest) s ≡ continue info rest (close_or_idle t)
unfolding run
run-step info e rest s t d w = ap (continue info rest) (handle_event-write info e s t d w)

dispatch-closing :
    (info : ServerInfo) (r : Received) (s : Session)
    → s.should_close ≡ true
    → dispatch info (packet_received r) s ≡ (succeeded, job_done s)
unfolding dispatch
dispatch-closing info r s c =
    >>-succeeded _ _ (assign_lem job_done s) (reading_lem _ (when-false _ _ (ap not c)))

visible-reported : (l : List Action) → visible (l ++ reported ∷ []) ≡ visible l
visible-reported l = visible-append l (reported ∷ []) ∙ append-nil (visible l)

-- A session that is to close writes and sends nothing any more.
run-closing :
    (info : ServerInfo) (client : Address) (l : List (ℕ × Bytes)) (s : Session)
    → s.should_close ≡ true
    → s.request_type ≡ write_request
    → visible (continue info (map (data_event client) l) (close_or_idle s)).1.actions
      ≡ visible s.actions
unfolding close_or_idle run
run-closing info client [] s c w = ground (arith, visible-reported s.actions)
run-closing info client ((n, payload) ∷ l) s c w =
    let one =
      run-step info (data_event client (n, payload)) (map (data_event client) l) s (job_done s)
        (dispatch-closing info _ s c) w in
    let rest = run-closing info client l (job_done s) c w in
    ground (arith, c, visible-reported s.actions, one, rest)

-- What the session has still to receive.
abbrev to_receive : Address → Session → List (ℕ × Bytes) → List Action
to_receive client s l = receive_in_order client s.block_size s.expected_sequence_number l

IsReceiving-after_data :
    (client : Address) (n : ℕ) (payload : Bytes) (s : Session)
    → IsReceiving client s
    → IsReceiving client (after_data n payload s)
IsReceiving-after_data client n payload s w =
    let r = w.is_write in
    let c = w.is_client in
    let a = w.no_failure in
    let f = w.first_block in
    let o = w.is_open in
    record {
      is_write = ground (arith, r);
      is_client = ground (arith, c);
      is_known = w.is_known;
      no_failure = ground (arith, a);
      is_open = ground (arith, o);
      first_block = λ h. ground (arith, f, h);
    }

visible-accepted :
    (l : List Action) (payload : Bytes) (client : Address) (packet : Bytes) (more : List Action)
    → visible ((l ++ written payload ∷ []) ++ sent client packet ∷ []) ++ more
      ≡ visible l ++ written payload ∷ sent client packet ∷ more
visible-accepted l payload client packet more =
    ap (λ x. visible x ++ more) (append_assoc l (written payload ∷ []) (sent client packet ∷ []))
    ∙ ap (◌++ more) (visible-append l (written payload ∷ sent client packet ∷ []))
    ∙ append_assoc (visible l) (written payload ∷ sent client packet ∷ []) more

visible-submitted : (l : List Action) → visible (l ++ submitted packet_job ∷ []) ≡ visible l
visible-submitted l = visible-append l (submitted packet_job ∷ []) ∙ append-nil (visible l)

-- What is still to be received after a packet, behind what the packet adds.
receive-step :
    (client : Address) (n : ℕ) (payload : Bytes) (s : Session) (l : List (ℕ × Bytes))
    → s.client_address ≡ client
    → s.should_close ≡ false
    → let t = after_data n payload s in
      let more : List Action = if t.should_close then [] else to_receive client t l in
      visible t.actions ++ more ≡ visible s.actions ++ to_receive client s ((n, payload) ∷ l)
unfolding receive_in_order
receive-step client n payload s l c going =
    let t = received n payload s in
    let again = visible-submitted t.actions in
    let before = visible-submitted s.actions in
    let more = to_receive client t l in
    let last = visible-accepted s.actions payload client (encode_ack n) [] in
    let next = visible-accepted s.actions payload client (encode_ack n) more in
    ground (arith, c, going, again, before, last, next)

close_or_idle-going : (s : Session) → s.should_close ≡ false → close_or_idle s ≡ (idle, s)
unfolding close_or_idle
close_or_idle-going s c = ground arith

-- The block numbers have 16 bits, and each packet fits a buffer of `room` bytes.
abbrev pub AreBlocks : ℕ → List (ℕ × Bytes) → Type 0
AreBlocks room [] = Unit
AreBlocks room ((n, payload) ∷ l) = (n < u16_mod) × (length payload + 4 ≤ room) × AreBlocks room l

after_data_room :
    (n : ℕ) (payload : Bytes) (s : Session)
    → (after_data n payload s).recv_buffer_size ≡ s.recv_buffer_size
after_data_room n payload s = ground arith

-- Whatever DATA packets with 16-bit block numbers, that fit the receive buffer of the session, the client
-- of a write request sends and in whatever order, a session that is not closing, and that expects block 1 as long as its options
-- are to be acknowledged, writes to its file and acknowledges exactly what a receiver takes that
-- waits for each block in turn and stops at the first short one, as long as its file is open and no
-- system call fails.
pub run-receive_in_order :
    (info : ServerInfo) (client : Address) (l : List (ℕ × Bytes)) (s : Session)
    → IsReceiving client s
    → s.should_close ≡ false
    → AreBlocks s.recv_buffer_size l
    → visible (run info (map (data_event client) l) s).1.actions
      ≡ visible s.actions ++ receive_in_order client s.block_size s.expected_sequence_number l
unfolding run receive_in_order
run-receive_in_order info client [] s w going h = sym (append-nil (visible s.actions))
run-receive_in_order info client ((n, payload) ∷ l) s w going h =
    ap (λ r. visible r.1.actions)
      (run-step info (data_event client (n, payload)) (map (data_event client) l) s
        (after_data n payload (job_done s)) (dispatch-data info client n payload s h.0 h.1 w going)
        u.is_write)
    ∙ (elim (Bool-cases t.should_close) [
      | inl c ↦
          run-closing info client l t c u.is_write
          ∙ sym (append-nil (visible t.actions))
          ∙ sym (ap with_more c)
      | inr c ↦
          ap (λ r. visible (continue info (map (data_event client) l) r).1.actions)
            (close_or_idle-going t c)
          ∙ run-receive_in_order info client l t u c
              (subst (λ k. AreBlocks k l) (sym (after_data_room n payload (job_done s))) h.2)
          ∙ sym (ap with_more c)
    ])
    ∙ receive-step client n payload (job_done s) l w.is_client going
  where
    v : IsReceiving client (job_done s)
    v = IsReceiving-job_done client s w

    t : Session
    t = after_data n payload (job_done s)

    u : IsReceiving client t
    u = IsReceiving-after_data client n payload (job_done s) v

    with_more : Bool → List Action
    with_more b = visible t.actions ++ (if b then [] else to_receive client t l)
