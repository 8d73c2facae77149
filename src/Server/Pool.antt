-- ===== src/Server/Pool.antt =====
-- The pool of workers: tftp/src/server/worker_pool.c.
pub mod Balance
use file_transfer_over_udp.Prelude.{
  ℕ, zero, suc, ◌+◌, ◌-◌, ◌*◌, Bool, true, false, Option, none, some, List, [], ◌∷◌, length, ltb,
  ◌==◌, if◌then◌else◌, get_elem?,
}
use file_transfer_over_udp.Prelude.Words.{size_mod}
use file_transfer_over_udp.Server.Session.{Session}
use file_transfer_over_udp.Server.Dispatcher.{dispatcher_submit}
use file_transfer_over_udp.Server.Worker.{WorkerJob, Worker, worker_init, put}

-- `worker_pool_init`: the workers, or none if one cannot be started; for each the answers of its calls.
unfoldable pub worker_pool_init :
    Session → ℕ → List (Bool × Bool × Bool × Bool) → Option (List Worker)
worker_pool_init zeroed max_jobs [] = some []
worker_pool_init zeroed max_jobs ((allocated, counts, ring_works, thread_runs) ∷ rest) =
    let others = worker_pool_init zeroed max_jobs rest in
    elim (worker_init zeroed max_jobs allocated counts ring_works thread_runs []) [
      | none ↦ none
      | some w ↦ elim others [ none ↦ none | some ws ↦ some (w ∷ ws) ]
    ]

-- The loop of `get_least_busy_worker`: the workers from `i` on, with the best one so far and its size.
unfoldable pub least_busy_from : ℕ → ℕ → ℕ → List Worker → ℕ
least_busy_from i best size [] = best
least_busy_from i best size (w ∷ rest) =
    let busy = length w.jobs - w.available_jobs in
    let better = least_busy_from (suc i) i busy rest in
    let same = least_busy_from (suc i) best size rest in
    if busy == 0 then i else if ltb busy size then better else same

-- `get_least_busy_worker`.
unfoldable pub get_least_busy_worker : List Worker → ℕ
get_least_busy_worker ws = least_busy_from 0 0 (size_mod - 1) ws

-- The loop of `worker_pool_get_job` over the jobs.
unfoldable pub first_inactive : List WorkerJob → Option ℕ
first_inactive [] = none
first_inactive (job ∷ rest) =
    let later = first_inactive rest in
    if job.is_active then elim later [ none ↦ none | some i ↦ some (suc i) ] else some 0

-- `worker_pool_get_job` waits for a worker, comes to its `unreachable`, or takes a job of a worker: the
-- index of the worker, the one of the job, and the pool without a permit.
pub data Taken : Type 0 where
  waiting : ℕ → Taken
  no_inactive_job no_worker : Taken
  taken : ℕ → ℕ → List Worker → Taken

-- The worker at an index gives a permit and a job.
unfoldable pub take_job : ℕ → ℕ → List Worker → Taken
take_job at i [] = no_worker
take_job at zero (w ∷ rest) =
    if w.available_jobs == 0 then waiting at else (elim (first_inactive w.jobs) [
      | none ↦ no_inactive_job
      | some j ↦ taken at j (record w { available_jobs = w.available_jobs - 1 } ∷ rest)
    ])
take_job at (suc i) (w ∷ rest) = elim (take_job at i rest) [
  | taken at j ws ↦ taken at j (w ∷ ws)
  | other ↦ other
]

-- `worker_pool_get_job`.
unfoldable pub worker_pool_get_job : List Worker → Taken
worker_pool_get_job ws = let i = get_least_busy_worker ws in take_job i i ws

abbrev pub put_worker : ℕ → Worker → List Worker → List Worker
put_worker n w [] = []
put_worker zero w (v ∷ rest) = w ∷ rest
put_worker (suc n) w (v ∷ rest) = v ∷ put_worker n w rest

-- `worker_pool_start_job` for job `j` of worker `i`, with the `id` of the start event of its session.
unfoldable pub worker_pool_start_job : ℕ → ℕ → Session → List Worker → Bool × List Worker
worker_pool_start_job i j session ws = elim (get_elem? ws i) [
  | none ↦ (false, ws)
  | some w ↦
      let id = j * 281474976710656 in
      let (submits, d) = dispatcher_submit (some id) w.dispatcher in
      (
        submits,
        put_worker i
            (record w {
              dispatcher = d;
              jobs = put j (record { is_active = submits; session = session }) w.jobs;
            })
            ws,
      )
]
