-- ===== src/Server/Session/Handle/Trace.antt =====
-- The life of a session: the events that the dispatcher hands to `tftp_session_handle_event`, as long
-- as it returns `TFTP_SESSION_STATE_IDLE`.
use file_transfer_over_udp.Prelude.{ℕ, ◌+◌, ◌≡◌, List, [], ◌∷◌}
use file_transfer_over_udp.Server.Session.{Session}
use file_transfer_over_udp.Server.Session.Start.{ServerInfo}
use file_transfer_over_udp.Server.Session.Handle.{Event, start_event, idle, handle_event}

-- The session `s` comes to another one by some events, the latest first.
pub data Trace (info : ServerInfo) (s : Session) : List Event → Session → Type 0 where
  here : Trace info s [] s
  later :
      {l : List Event} {t : Session} (e : Event)
      → Trace info s l t
      → (handle_event info e t).0 ≡ idle
      → Trace info s (e ∷ l) (handle_event info e t).1

-- The jobs that an event completes: every event but the start is the end of one.
abbrev pub completed : Event → ℕ
completed (start_event fs request) = 0
completed _ = 1

abbrev pub completions : List Event → ℕ
completions [] = 0
completions (e ∷ l) = completed e + completions l
