-- ===== src/Server/Worker.antt =====
-- A worker of the server: tftp/src/server/worker.c with worker_job.c. It runs the sessions of its jobs on
-- the events of its dispatcher.
use file_transfer_over_udp.Prelude.{
  ℕ, zero, suc, ◌+◌, ◌-◌, ◌/◌, Bool, true, false, not, ◌&&◌, ◌||◌, Option, none, some, List, [],
  ◌∷◌, ◌==◌, if◌then◌else◌, get_elem?,
}
use file_transfer_over_udp.Prelude.Words.{u8}
use file_transfer_over_udp.Server.Session.{Session, Action, submitted}
use file_transfer_over_udp.Server.Session.Start.{ServerInfo}
use file_transfer_over_udp.Server.Session.Handle.{Event, idle, error, closed, hung, handle_event}
use file_transfer_over_udp.Server.Dispatcher.{
  Dispatcher, dispatcher_init, dispatcher_wait_event, completion,
}

-- `struct worker_job`; its `job_id` is its place among the jobs.
pub record WorkerJob : Type 0 where
  pub is_active : Bool
  pub session : Session

-- `enum job_state`; `stuck` is a handler that does not come back.
pub data JobState : Type 0 where
  running terminated job_error stuck : JobState

-- `job_handle_event`.
unfoldable pub job_handle_event : ServerInfo → Event → WorkerJob → JobState × WorkerJob
job_handle_event info event job =
    let (state, session) = handle_event info event job.session in
    (
      elim state [ idle ↦ running | closed ↦ terminated | error ↦ job_error | hung ↦ stuck ],
      record job { session = session },
    )

-- `struct worker`; `available_jobs` is the value of its semaphore.
pub record Worker : Type 0 where
  pub jobs : List WorkerJob
  pub available_jobs : ℕ
  pub dispatcher : Dispatcher

abbrev pub inactive_jobs : ℕ → Session → List WorkerJob
inactive_jobs zero session = []
inactive_jobs (suc n) session =
    record { is_active = false; session = session } ∷ inactive_jobs n session

-- `worker_init`, with the answers of `calloc`, `sem_init`, of the ring and of `thrd_create`; the memory of
-- the sessions has zeros first.
unfoldable pub worker_init : Session → ℕ → Bool → Bool → Bool → Bool → List Bool → Option Worker
worker_init zeroed max_jobs allocated counts ring_works thread_runs answers =
    elim (dispatcher_init ring_works answers) [
      | none ↦ none
      | some d ↦
          if allocated && counts && thread_runs
          then some (record {
            jobs = inactive_jobs max_jobs zeroed;
            available_jobs = max_jobs;
            dispatcher = d;
          })
          else none
    ]

-- A job put in its place.
abbrev pub put : ℕ → WorkerJob → List WorkerJob → List WorkerJob
put n job [] = []
put zero job (j ∷ rest) = job ∷ rest
put (suc n) job (j ∷ rest) = j ∷ put n job rest

-- What a worker meets: `io_uring_wait_cqe` is interrupted, or fails, or a completion without an event, or
-- one with the `id` of an event and what it tells the session.
pub data Wakeup : Type 0 where
  is_interrupted is_broken is_woken : Wakeup
  has_event : ℕ → Event → Wakeup

-- The worker goes on, has ended the process, does not come back, or uses a job that it does not have.
pub data WorkerState : Type 0 where
  working dead blocked overrun : WorkerState

-- The counter after a completion.
abbrev pub completed : Dispatcher → Dispatcher
completed d = (dispatcher_wait_event (completion none true 0) d).1

-- The requests that a session has given to the dispatcher; their entries stand in its actions.
abbrev pub submissions : List Action → ℕ
submissions [] = 0
submissions (submitted job ∷ rest) = suc (submissions rest)
submissions (_ ∷ rest) = submissions rest

abbrev pub with_submissions : Session → Session → Dispatcher → Dispatcher
with_submissions before after d = record d {
  pending_requests =
      u8 (d.pending_requests + (submissions after.actions - submissions before.actions));
}

-- The job that an event belongs to.
abbrev pub job_of : ℕ → ℕ
job_of id = id / 281474976710656

-- The `switch` of `worker_routine` over the state of a job that has handled its event. The flag is the
-- answer of `sem_post`.
unfoldable pub after_event : JobState → Bool → ℕ → WorkerJob → Worker → WorkerState × Worker
after_event running posts i next w = (working, record w { jobs = put i next w.jobs })
after_event terminated posts i next w =
    let freed = record w { jobs = put i (record next { is_active = false }) w.jobs } in
    if posts
    then (working, record freed { available_jobs = freed.available_jobs + 1 })
    else (dead, freed)
after_event job_error posts i next w = (dead, record w { jobs = put i next w.jobs })
after_event stuck posts i next w = (blocked, w)

-- An event of a job.
unfoldable pub run_job : ServerInfo → Bool → ℕ → Event → WorkerJob → Worker → WorkerState × Worker
run_job info posts i event job w =
    let (state, next) = job_handle_event info event job in
    after_event state posts i next
      (record w { dispatcher = with_submissions job.session next.session (completed w.dispatcher) })

-- One round of `worker_routine`.
unfoldable pub worker_turn : ServerInfo → Bool → Wakeup → Worker → WorkerState × Worker
worker_turn info posts is_interrupted w = (working, w)
worker_turn info posts is_broken w = (dead, w)
worker_turn info posts is_woken w = (working, record w { dispatcher = completed w.dispatcher })
worker_turn info posts (has_event id event) w = elim (get_elem? w.jobs (job_of id)) [
  | none ↦ (overrun, w)
  | some job ↦ run_job info posts (job_of id) event job w
]

-- `worker_routine` on what it meets, with the flag `shutdown` at each test and the answer of `sem_post`.
unfoldable pub worker_routine :
    ServerInfo → List (Bool × Bool × Wakeup) → Worker → WorkerState × Worker
worker_routine info [] w = (working, w)
worker_routine info ((shutdown, posts, wakeup) ∷ rest) w =
    let (state, v) = worker_turn info posts wakeup w in
    let more = worker_routine info rest v in
    if not shutdown || not (w.dispatcher.pending_requests == 0)
    then (elim state [ working ↦ more | other ↦ (other, v) ])
    else (working, w)
