-- ===== src/Tests/Pools.antt =====
-- The dispatcher, the workers and the loop of the server at concrete values.
use file_transfer_over_udp.Prelude.{
  ℕ, ◌+◌, ◌-◌, ◌≤◌, ◌≡◌, ◌≢◌, refl, true, false, none, some, [], ◌∷◌, length, arith,
}
use file_transfer_over_udp.Prelude.Words.{u8}
use file_transfer_over_udp.Inet.{ipv4}
use file_transfer_over_udp.Server.Dispatcher.{
  Dispatcher, nop, completion, submit_entry, dispatcher_wait_event, dispatcher_init,
}
use file_transfer_over_udp.Server.Dispatcher.Counter.{
  Run, started, submits, completes, pending_requests_count,
}
use file_transfer_over_udp.Server.Worker.{Worker, inactive_jobs, worker_init}
use file_transfer_over_udp.Server.Pool.{worker_pool_init}
use file_transfer_over_udp.Server.Loop.{
  message, Round, Server, serve, serve_round, waits, unreachable,
}
use file_transfer_over_udp.Server.Loop.Permits.{IsReady}
use file_transfer_over_udp.Server.Loop.Reach.{here, served, serve_round_defined}
use file_transfer_over_udp.Server.Loop.Overdue.{serve-overdue}
use file_transfer_over_udp.Tests.Setup.{server, fresh}

abbrev empty_ring : Dispatcher
empty_ring = record { pending_requests = 0; answers = []; queued = []; submitted = [] }

-- A request whose submission fails, and a second one that takes the first along; one is completed.
abbrev failing_ring : Dispatcher
failing_ring = record empty_ring { answers = true ∷ false ∷ [] }

abbrev ring : Dispatcher
ring =
    (dispatcher_wait_event (completion none true 0)
      (submit_entry nop (some 1) (submit_entry nop none failing_ring).1).1).1

ring-Run : Run 1 1 ring
unfolding submit_entry
ring-Run =
    completes none true 0 (omega arith)
      (submits nop (some 1) (submits nop none (started {d = failing_ring} refl refl refl)))

pending_requests_count_example :
    (1 ≤ length ring.submitted)
    × (u8 (ring.pending_requests + 1) ≡ u8 (length ring.submitted + length ring.queued - 1))
pending_requests_count_example = pending_requests_count 1 1 ring ring-Run

-- One request is in the ring, and the counter is 0.
ring_counter : (ring.pending_requests ≡ 0) × (length ring.submitted ≡ 2)
unfolding submit_entry dispatcher_wait_event
ring_counter = (refl, refl)

-- A worker of two jobs.
abbrev two_jobs : Worker
two_jobs = record { jobs = inactive_jobs 2 fresh; available_jobs = 2; dispatcher = empty_ring }

-- A server that reports every ten units of time.
abbrev reporting : Server
reporting = record {
  info = server;
  workers = two_jobs ∷ [];
  should_stop = false;
  metrics_enabled = true;
  interval = 10;
  start_time = 0;
  sessions_count = 0;
  callbacks = 0;
}

-- Rounds behind the interval, in which requests arrive.
abbrev late : ℕ → Round
late time = record {
  now = time;
  sets_timeout = true;
  locks = true;
  unlocks = true;
  reception = message (record {
    is_truncated = false;
    is_control_truncated = false;
    peer = ipv4 40000 7;
    controls = [];
  });
  answers = [];
  later = time;
}

reporting-IsReady : IsReady reporting.workers
reporting-IsReady = record { some_worker = omega arith; are_balanced = (omega arith, tt) }

serve-overdue_example :
    ((serve (late 11 ∷ late 12 ∷ late 13 ∷ []) reporting).0 ≡ waits)
    × ((serve (late 11 ∷ late 12 ∷ late 13 ∷ []) reporting).1.sessions_count ≡ 0)
    × ((serve (late 11 ∷ late 12 ∷ late 13 ∷ []) reporting).1.callbacks ≡ 0)
serve-overdue_example =
    serve-overdue (late 11 ∷ late 12 ∷ late 13 ∷ []) reporting reporting-IsReady refl refl
      (omega arith, (omega arith, (omega arith, tt))) (omega arith)

reporting-pool : worker_pool_init fresh 2 ((true, true, true, true) ∷ []) ≡ some reporting.workers
unfolding worker_pool_init worker_init dispatcher_init
reporting-pool = refl

-- A request is served, and the worker is woken up.
serve_round_defined_example :
    (serve_round (late 3) (serve_round (late 2) reporting).1).0 ≢ unreachable
serve_round_defined_example =
    serve_round_defined fresh 2 ((true, true, true, true) ∷ []) reporting
      (serve_round (late 2) reporting).1 (late 3) reporting-pool (omega arith)
      (served (late 2) here)
