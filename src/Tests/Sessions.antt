-- ===== src/Tests/Sessions.antt =====
-- A session from its start to its end.
use file_transfer_over_udp.Prelude.{List, [], ◌∷◌, ◌≡◌, refl}
use file_transfer_over_udp.Server.Session.{Session}
use file_transfer_over_udp.Server.Session.Fetch.{read_upto}
use file_transfer_over_udp.Server.Session.Handle.{
  Event, start_event, data_available, timeout_removed, timeout_cancelled, handle_event,
}
use file_transfer_over_udp.Server.Session.Handle.Trace.{Trace, here, later}
use file_transfer_over_udp.Server.Session.Pending.{submissions}
use file_transfer_over_udp.Server.Session.Pending.Close.{closed_submissions}
use file_transfer_over_udp.Server.Session.Pending.Whole.{IsSettled, handle_event-IsSettled}
use file_transfer_over_udp.Prelude.{arith}
use file_transfer_over_udp.Tests.Setup.{peer, server, disk, plain_read, from_peer, handlers, fresh}

-- A read request of five bytes, up to the event before the one that closes it; the latest is first.
abbrev read_events : List Event
read_events =
    timeout_removed
    ∷ from_peer (0 ∷ 4 ∷ 0 ∷ 1 ∷ [])
    ∷ data_available (read_upto 512)
    ∷ start_event disk plain_read
    ∷ []

abbrev stepped : List Event → Session
stepped [] = fresh
stepped (e ∷ l) = (handle_event server e (stepped l)).1

read-Trace : Trace server fresh read_events (stepped read_events)
unfolding handlers
read-Trace =
    later timeout_removed
      (later (from_peer (0 ∷ 4 ∷ 0 ∷ 1 ∷ []))
        (later (data_available (read_upto 512)) (later (start_event disk plain_read) here refl)
          refl)
        refl)
      refl

-- The session closes with four jobs submitted: two timeout requests, a read and a receive.
closed_submissions_example :
    submissions (handle_event server timeout_cancelled (stepped read_events)).1.actions ≡ 4
unfolding handlers
closed_submissions_example =
    closed_submissions server peer [] read_events (stepped read_events) timeout_cancelled read-Trace
      refl (omega arith) (omega arith)

handle_event-IsSettled_example :
    IsSettled 0 fresh (handle_event server (start_event disk plain_read) fresh).1
handle_event-IsSettled_example = handle_event-IsSettled server (start_event disk plain_read) fresh
