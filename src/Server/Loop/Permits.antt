-- ===== src/Server/Loop/Permits.antt =====
-- The server and its workers together: a permit of a worker always comes with an inactive job.
use mathlib.Core.Option.{none-ne-some, some_inj}
use file_transfer_over_udp.Prelude.{
  ℕ, ◌*◌, ◌≤◌, ◌<◌, ◌≡◌, refl, ◌∙◌, Bool, true, false, Bool-cases, inl, inr, Option, none, some,
  List, length, get_elem?, arith,
}
use file_transfer_over_udp.Server.Session.{Session}
use file_transfer_over_udp.Server.Session.Start.{ServerInfo}
use file_transfer_over_udp.Server.Session.Handle.{Event, session_init}
use file_transfer_over_udp.Server.Dispatcher.{dispatcher_submit}
use file_transfer_over_udp.Server.Worker.{
  WorkerJob, JobState, running, terminated, job_error, stuck, job_handle_event, Worker, put, Wakeup,
  is_interrupted, is_broken, is_woken, has_event, WorkerState, overrun, job_of, worker_turn,
  after_event, run_job,
}
use file_transfer_over_udp.Server.Pool.{worker_pool_start_job}
use file_transfer_over_udp.Server.Pool.Balance.{
  inactive, AreBalanced, IsHeld, inactive-put, put_worker-AreBalanced, IsHeld-AreBalanced,
  IsHeld-worker, length-put_worker,
}
use file_transfer_over_udp.Server.Loop.{
  Message, parse_request_metadata, Round, Server, start_session, on_message,
}

-- A pool that has a worker, each with as many inactive jobs as permits at least.
pub record IsReady (ws : List Worker) : Type 0 where
  pub some_worker : 0 < length ws
  pub are_balanced : AreBalanced ws

start_job-IsReady :
    (i j : ℕ) (session : Session) (ws : List Worker)
    → 0 < length ws
    → IsHeld i j ws
    → IsReady (worker_pool_start_job i j session ws).1
unfolding worker_pool_start_job
start_job-IsReady i j session ws some_worker h =
    let (w, at, free, (job, at_job, off)) = IsHeld-worker i j ws h in
    let id = j * 281474976710656 in
    let sends = dispatcher_submit (some id) w.dispatcher in
    let next : WorkerJob = record { is_active = sends.0; session = session } in
    let v : Worker = record w { dispatcher = sends.1; jobs = put j next w.jobs } in
    let moved = inactive-put j w.jobs job next at_job in
    let bound : v.available_jobs ≤ inactive v.jobs = ground (arith, moved, off, free) in
    rw (worker_pool_start_job, at)
      (record {
        some_worker = rw (length-put_worker i v ws) some_worker;
        are_balanced = put_worker-AreBalanced i v ws bound (IsHeld-AreBalanced i j ws h);
      })

-- An event comes to a session of an active job.
abbrev pub IsForActive : Wakeup → Worker → Type 0
IsForActive (has_event id event) w =
    (job : WorkerJob) × (get_elem? w.jobs (job_of id) ≡ some job) × (job.is_active ≡ true)
IsForActive _ w = Unit

job_handle_event-is_active :
    (info : ServerInfo) (event : Event) (job : WorkerJob)
    → (job_handle_event info event job).1.is_active ≡ job.is_active
unfolding job_handle_event
job_handle_event-is_active info event job = refl

-- A worker with as many inactive jobs as permits at least.
abbrev pub IsEnough : Worker → Type 0
IsEnough w = w.available_jobs ≤ inactive w.jobs

after_event-IsEnough :
    (state : JobState) (posts : Bool) (i : ℕ) (job next : WorkerJob) (w : Worker)
    → get_elem? w.jobs i ≡ some job
    → job.is_active ≡ true
    → next.is_active ≡ true
    → IsEnough w
    → IsEnough (after_event state posts i next w).1
unfolding after_event
after_event-IsEnough running posts i job next w at on still h =
    let kept = inactive-put i w.jobs job next at in ground (arith, kept, on, still, h)
after_event-IsEnough terminated true i job next w at on still h =
    let freed = inactive-put i w.jobs job (record next { is_active = false }) at in
    ground (arith, freed, on, h)
after_event-IsEnough terminated false i job next w at on still h =
    let freed = inactive-put i w.jobs job (record next { is_active = false }) at in
    ground (arith, freed, on, h)
after_event-IsEnough job_error posts i job next w at on still h =
    let kept = inactive-put i w.jobs job next at in ground (arith, kept, on, still, h)
after_event-IsEnough stuck posts i job next w at on still h = h

run_job-IsEnough :
    (info : ServerInfo) (posts : Bool) (i : ℕ) (event : Event) (job : WorkerJob) (w : Worker)
    → get_elem? w.jobs i ≡ some job
    → job.is_active ≡ true
    → IsEnough w
    → IsEnough (run_job info posts i event job w).1
unfolding run_job
run_job-IsEnough info posts i event job w at on h =
    let r = job_handle_event info event job in
    after_event-IsEnough r.0 posts i job r.1 _ at on
      (job_handle_event-is_active info event job ∙ on) h

pub worker_turn-IsEnough :
    (info : ServerInfo) (posts : Bool) (wakeup : Wakeup) (w : Worker)
    → IsForActive wakeup w
    → IsEnough w
    → IsEnough (worker_turn info posts wakeup w).1
unfolding worker_turn
worker_turn-IsEnough info posts is_interrupted w k h = h
worker_turn-IsEnough info posts is_broken w k h = h
worker_turn-IsEnough info posts is_woken w k h = h
worker_turn-IsEnough info posts (has_event id event) w (job, at, on) h =
    go (get_elem? w.jobs (job_of id)) at
      (run_job-IsEnough info posts (job_of id) event job w at on h)
  where
    go :
        (o : Option WorkerJob)
        → o ≡ some job
        → IsEnough (run_job info posts (job_of id) event job w).1
        → (let t : WorkerState × Worker = elim o [
          | none ↦ (overrun, w)
          | some x ↦ run_job info posts (job_of id) event x w
        ] in
            IsEnough t.1)
    go none e b = absurd (none-ne-some job e)
    go (some x) e b = rw (some_inj.0 e) b

pub start_session-IsReady :
    (i j : ℕ) (round : Round) (m : Message) (s : Server)
    → 0 < length s.workers
    → IsHeld i j s.workers
    → IsReady (start_session i j round m s).workers
unfolding start_session
start_session-IsReady i j round m s some_worker h =
    let started =
      start_job-IsReady i j (session_init s.info m.peer round.answers) s.workers some_worker h in
    elim (Bool-cases round.locks) [
      | inl e ↦ rw e started
      | inr e ↦
          rw e (record {
            some_worker = some_worker;
            are_balanced = IsHeld-AreBalanced i j s.workers h;
          })
    ]

pub on_message-IsReady :
    (i j : ℕ) (round : Round) (m : Message) (s : Server)
    → 0 < length s.workers
    → IsHeld i j s.workers
    → IsReady (on_message i j round m s).workers
unfolding on_message
on_message-IsReady i j round m s some_worker h =
    go (parse_request_metadata m) (start_session-IsReady i j round m s some_worker h)
  where
    go :
        (o : Option Bool)
        → IsReady (start_session i j round m s).workers
        → (let t : Server = elim o [ none ↦ s | some is_ipv4 ↦ start_session i j round m s ] in
            IsReady t.workers)
    go none k = record {
      some_worker = some_worker;
      are_balanced = IsHeld-AreBalanced i j s.workers h;
    }
    go (some is_ipv4) k = k
