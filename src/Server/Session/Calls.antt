-- ===== src/Server/Session/Calls.antt =====
-- The calls that a session makes: sending, the requests to the dispatcher with their count of pending
-- jobs, and the packets that it builds (tftp/src/server/session.c).
use file_transfer_over_udp.Prelude.{◌+◌, ◌-◌, ◌≡◌, arith, true, false, List, [], ◌∷◌, ◌++◌}
use file_transfer_over_udp.Prelude.Words.{Bytes, u8, u8_mod}
use file_transfer_over_udp.Wire.{ErrorCode, oack, opcode_number, error_number, to_be16}
use file_transfer_over_udp.Wire.Packet.{error_packet}
use file_transfer_over_udp.Wire.Options.{kinds, options_bytes}
use file_transfer_over_udp.Inet.{Address}
use file_transfer_over_udp.Server.Session.{
  Session, Job, timeout_job, timeout_removal, packet_job, packet_removal, Action, sent, submitted,
  measure_started, Answer, done, failure, succeeded, failed, Handler, ◌>>◌, assign, reading, when,
  combinators,
}

abbrev pub act : Action → Session → Session
act a s = record s { actions = s.actions ++ a ∷ [] }

-- The answer to the next system call.
abbrev pub answer : List Answer → Answer
answer [] = done
answer (a ∷ rest) = a

abbrev pub later_answers : List Answer → List Answer
later_answers [] = []
later_answers (a ∷ rest) = rest

abbrev pub answered : Session → Session
answered s = record s { answers = later_answers s.answers }

-- A call that does `f` unless it fails, where the handler returns `false`.
unfoldable pub call : (Session → Session) → Handler
call f s = elim (answer s.answers) [
  | failure ↦ (failed, answered s)
  | _ ↦ (succeeded, f (answered s))
]

-- `sendto(...)` with its check for -1.
unfoldable pub send_to : Address → Bytes → Handler
send_to address packet = call (act (sent address packet))

unfoldable pub send : Bytes → Handler
send packet s = send_to s.client_address packet s

-- `dispatcher_submit*` and `pending_jobs++`.
unfoldable pub submit : Job → Handler
submit job = call (λ s. act (submitted job) (record s { pending_jobs = u8 (s.pending_jobs + 1) }))

-- `pending_jobs--`, at the event that completes a request.
abbrev pub job_done : Session → Session
job_done s = record s { pending_jobs = u8 (s.pending_jobs + u8_mod - 1) }

-- `submit_timeout` and `submit_cancel_timeout`.
unfoldable pub submit_timeout : Handler
submit_timeout = submit timeout_job >> assign (λ s. record s { is_timer_active = true })

unfoldable pub submit_cancel_timeout : Handler
submit_cancel_timeout = submit timeout_removal >> assign (λ s. record s { is_timer_active = false })

-- `recv_async` and `recv_async_cancel`. The kernel is given `recv_buffer_size` bytes of room, which
-- stay the same from the first request on; `on_packet_received` takes what fits in them.
unfoldable pub recv_async : Handler
recv_async = submit packet_job

unfoldable pub recv_async_cancel : Handler
recv_async_cancel = submit packet_removal

-- The session after a `submit_timeout` that succeeds, as it does if the system answers so.
abbrev pub timeout_started : Session → Session
timeout_started s = record (act (submitted timeout_job) (answered s)) {
  pending_jobs = u8 (s.pending_jobs + 1);
  is_timer_active = true;
}

pub submit_timeout_lem :
    (s : Session) → s.answers ≡ [] → submit_timeout s ≡ (succeeded, timeout_started s)
unfolding submit_timeout submit call combinators
submit_timeout_lem s a = ground arith

abbrev pub set_error : ErrorCode → Bytes → Session → Session
set_error code text s = record s {
  error = record { error_occurred = true; number = error_number code; message = text };
}

-- `error_packet_init`, whose `malloc` may fail, and the `sendto` behind it.
unfoldable pub send_error_to : Address → Handler
send_error_to address =
    call (λ s. s) >> reading (λ s. send_to address (error_packet s.error.number s.error.message))

-- `oack_packet_init`: the active options in their order behind the opcode.
unfoldable pub oack_packet_init : Handler
oack_packet_init = call (λ s. record s {
  oack_packet = to_be16 (opcode_number oack) ++ options_bytes s.recognized_options kinds;
})

-- `send_oack`.
unfoldable pub send_oack : Handler
send_oack =
    oack_packet_init
    >> reading (λ s.
      when s.is_adaptive_timeout_active
        (assign (λ t. act measure_started (record t { is_measuring = true; measured_block = 0 }))))
    >> submit_timeout
    >> reading (λ s. send s.oack_packet)
