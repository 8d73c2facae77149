-- ===== src/Server/Session/Pending/Close.antt =====
-- A session closes only when each of its jobs is completed.
use file_transfer_over_udp.Prelude.{◌+◌, ◌≤◌, ◌<◌, ◌≡◌, List, ◌∷◌, arith}
use file_transfer_over_udp.Prelude.Words.{u8_mod}
use file_transfer_over_udp.Inet.{Address}
use file_transfer_over_udp.Server.Session.{Session, Answer}
use file_transfer_over_udp.Server.Session.Start.{ServerInfo}
use file_transfer_over_udp.Server.Session.Handle.{
  Event, closed, close_or_idle, handle_event, session_init,
}
use file_transfer_over_udp.Server.Session.Handle.Trace.{Trace, here, later, completions}
use file_transfer_over_udp.Server.Session.Pending.{submissions}
use file_transfer_over_udp.Server.Session.Pending.Whole.{IsSettled, handle_event-IsSettled}

Trace-IsSettled :
    {info : ServerInfo} {s t : Session} {l : List Event}
    → Trace info s l t
    → IsSettled (completions l) s t
Trace-IsSettled here = omega arith
Trace-IsSettled {info} (later {l} {t} e before h) =
    let one = handle_event-IsSettled info e t in omega (arith, Trace-IsSettled before, one)

closed_pending :
    (info : ServerInfo) (e : Event) (s : Session)
    → (handle_event info e s).0 ≡ closed
    → (handle_event info e s).1.pending_jobs ≡ 0
unfolding handle_event close_or_idle
closed_pending info e s h = ground (arith, h)

-- When a session that started new closes, then every job that it has submitted has been completed,
-- provided that no more jobs are completed than were submitted and fewer than 256 are outstanding
-- at that time.
pub closed_submissions :
    (info : ServerInfo) (address : Address) (answers : List Answer) (l : List Event) (t : Session)
    (e : Event)
    → Trace info (session_init info address answers) l t
    → (handle_event info e t).0 ≡ closed
    → completions (e ∷ l) ≤ submissions (handle_event info e t).1.actions
    → submissions (handle_event info e t).1.actions < completions (e ∷ l) + u8_mod
    → submissions (handle_event info e t).1.actions ≡ completions (e ∷ l)
unfolding session_init
closed_submissions info address answers l t e before h low high =
    let none_pending = closed_pending info e t h in
    let settled = handle_event-IsSettled info e t in
    omega (arith, Trace-IsSettled before, settled, none_pending, low, high)
