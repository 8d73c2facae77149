-- ===== src/Server/Pool/Balance.antt =====
-- The permits of a worker and its inactive jobs.
use mathlib.Core.Option.{none-ne-some, some_inj}
use file_transfer_over_udp.Prelude.{
  ℕ, zero, suc, ◌+◌, ◌-◌, ◌≤◌, ◌<◌, ◌≡◌, inl, inr, refl, ap, false, Bool-cases, some, List, [], ◌∷◌,
  length, ◌==◌, if◌then◌else◌, get_elem?, arith,
}
use file_transfer_over_udp.Prelude.Words.{size_mod}
use file_transfer_over_udp.Server.Worker.{WorkerJob, Worker, put}
use file_transfer_over_udp.Server.Pool.{
  least_busy_from, get_least_busy_worker, first_inactive, Taken, waiting, no_inactive_job,
  no_worker, taken, take_job, worker_pool_get_job, put_worker,
}

abbrev pub inactive : List WorkerJob → ℕ
inactive [] = 0
inactive (job ∷ rest) = if job.is_active then inactive rest else suc (inactive rest)

-- Each worker has at least as many inactive jobs as permits.
abbrev pub AreBalanced : List Worker → Type 0
AreBalanced [] = Unit
AreBalanced (w ∷ rest) = (w.available_jobs ≤ inactive w.jobs) × AreBalanced rest

abbrev pub total_permits : List Worker → ℕ
total_permits [] = 0
total_permits (w ∷ rest) = w.available_jobs + total_permits rest

-- A job of the pool is inactive, and its worker has one more inactive job than permits.
abbrev pub IsHeld : ℕ → ℕ → List Worker → Type 0
IsHeld i j [] = ⊥
IsHeld zero j (w ∷ rest) =
    (w.available_jobs < inactive w.jobs)
    × ((job : WorkerJob) × (get_elem? w.jobs j ≡ some job) × (job.is_active ≡ false))
    × AreBalanced rest
IsHeld (suc i) j (w ∷ rest) = (w.available_jobs ≤ inactive w.jobs) × IsHeld i j rest

first_inactive-some :
    (jobs : List WorkerJob)
    → 0 < inactive jobs
    → (j : ℕ) × (first_inactive jobs ≡ some j)
      × ((job : WorkerJob) × (get_elem? jobs j ≡ some job) × (job.is_active ≡ false))
unfolding first_inactive
first_inactive-some [] h = elim h [ ]
first_inactive-some (job ∷ jobs) h = elim (Bool-cases job.is_active) [
  | inl e ↦
      let (j, found, rest) = first_inactive-some jobs (ground (arith, h, e)) in
      (suc j, ground (arith, e, found), rest)
  | inr e ↦ (0, ground (arith, e), (job, refl, e))
]

-- What is taken from worker `i` of a pool: nothing if it has no permit, or a permit and an inactive job.
abbrev pub IsTaken : ℕ → ℕ → List Worker → Taken → Type 0
IsTaken at i ws (waiting k) = k ≡ at
IsTaken at i ws (taken k j left) =
    (k ≡ at)
    × (total_permits left + 1 ≡ total_permits ws)
    × (length left ≡ length ws)
    × IsHeld i j left
IsTaken at i ws _ = ⊥

take_job-first :
    (at : ℕ) (w : Worker) (rest : List Worker)
    → w.available_jobs ≤ inactive w.jobs
    → AreBalanced rest
    → IsTaken at zero (w ∷ rest) (take_job at zero (w ∷ rest))
unfolding take_job
take_job-first at w rest h k = elim (Bool-cases (w.available_jobs == 0)) [
  | inl e ↦ rw e refl
  | inr e ↦
      let (j, found, job) = first_inactive-some w.jobs (ground (arith, h, e)) in
      rw e (rw found (refl, ground (arith, e), refl, (ground (arith, h, e), job, k)))
]

take_job-IsTaken :
    (at i : ℕ) (ws : List Worker)
    → i < length ws
    → AreBalanced ws
    → IsTaken at i ws (take_job at i ws)
unfolding take_job
take_job-IsTaken at i [] h k = absurd (omega (arith, h))
take_job-IsTaken at zero (w ∷ rest) h k = take_job-first at w rest k.0 k.1
take_job-IsTaken at (suc i) (w ∷ rest) h k =
    go (take_job at i rest) (take_job-IsTaken at i rest (omega (arith, h)) k.1)
  where
    go :
        (t : Taken)
        → IsTaken at i rest t
        → IsTaken at
            (suc i)
            (w ∷ rest)
            (elim t [ taken at j ws ↦ taken at j (w ∷ ws) | other ↦ other ])
    go (waiting n) e = e
    go no_inactive_job e = e
    go no_worker e = e
    go (taken n j left) e =
        let total = e.1 in
        let size = e.2 in (e.0, omega (arith, total), omega (arith, size), (k.0, e.3))

least_busy_from-lt :
    (i best size : ℕ) (ws : List Worker)
    → best < i + length ws
    → least_busy_from i best size ws < i + length ws
unfolding least_busy_from
least_busy_from-lt i best size [] h = h
least_busy_from-lt i best size (w ∷ rest) h =
    let busy = length w.jobs - w.available_jobs in
    let better = least_busy_from-lt (suc i) i busy rest (omega arith) in
    let same = least_busy_from-lt (suc i) best size rest (omega arith) in
    ground (arith, better, same)

-- `worker_pool_get_job` of a balanced pool with a worker waits, or takes a permit and an inactive job.
pub worker_pool_get_job-IsTaken :
    (ws : List Worker)
    → 0 < length ws
    → AreBalanced ws
    → IsTaken (get_least_busy_worker ws) (get_least_busy_worker ws) ws (worker_pool_get_job ws)
unfolding worker_pool_get_job get_least_busy_worker
worker_pool_get_job-IsTaken ws some_worker w =
    let bound = least_busy_from-lt 0 0 (size_mod - 1) ws (omega (arith, some_worker)) in
    let small : least_busy_from 0 0 (size_mod - 1) ws < length ws = omega (arith, bound) in
    take_job-IsTaken (get_least_busy_worker ws) (get_least_busy_worker ws) ws small w

-- A job that becomes active takes the place of an inactive one, and one that is freed adds one.
pub inactive-put :
    (j : ℕ) (jobs : List WorkerJob) (job next : WorkerJob)
    → get_elem? jobs j ≡ some job
    → inactive (put j next jobs) + (if job.is_active then 0 else 1)
      ≡ inactive jobs + (if next.is_active then 0 else 1)
inactive-put j [] job next h = absurd (none-ne-some job h)
inactive-put zero (x ∷ rest) job next h =
    let same = ap (λ y. y.is_active) (some_inj.0 h) in ground (arith, same)
inactive-put (suc j) (x ∷ rest) job next h =
    let later = inactive-put j rest job next h in ground (arith, later)

pub put_worker-AreBalanced :
    (i : ℕ) (v : Worker) (ws : List Worker)
    → v.available_jobs ≤ inactive v.jobs
    → AreBalanced ws
    → AreBalanced (put_worker i v ws)
put_worker-AreBalanced i v [] h k = tt
put_worker-AreBalanced zero v (w ∷ rest) h k = (h, k.1)
put_worker-AreBalanced (suc i) v (w ∷ rest) h k = (k.0, put_worker-AreBalanced i v rest h k.1)

pub AreBalanced-at :
    (i : ℕ) (w : Worker) (ws : List Worker)
    → get_elem? ws i ≡ some w
    → AreBalanced ws
    → w.available_jobs ≤ inactive w.jobs
AreBalanced-at i w [] e h = absurd (none-ne-some w e)
AreBalanced-at zero w (v ∷ rest) e h =
    let permits = ap (λ x. x.available_jobs) (some_inj.0 e) in
    let free = ap (λ x. inactive x.jobs) (some_inj.0 e) in
    let some_free = h.0 in omega (arith, permits, free, some_free)
AreBalanced-at (suc i) w (v ∷ rest) e h = AreBalanced-at i w rest e h.1

pub IsHeld-AreBalanced : (i j : ℕ) (ws : List Worker) → IsHeld i j ws → AreBalanced ws
IsHeld-AreBalanced zero j [] h = absurd h
IsHeld-AreBalanced (suc i) j [] h = absurd h
IsHeld-AreBalanced zero j (w ∷ rest) h = (omega (arith, h.0), h.2)
IsHeld-AreBalanced (suc i) j (w ∷ rest) h = (h.0, IsHeld-AreBalanced i j rest h.1)

-- The worker that has the job which is held.
pub IsHeld-worker :
    (i j : ℕ) (ws : List Worker)
    → IsHeld i j ws
    → (w : Worker) × (get_elem? ws i ≡ some w)
      × (w.available_jobs < inactive w.jobs)
      × ((job : WorkerJob) × (get_elem? w.jobs j ≡ some job) × (job.is_active ≡ false))
IsHeld-worker zero j [] h = absurd h
IsHeld-worker (suc i) j [] h = absurd h
IsHeld-worker zero j (w ∷ rest) h = (w, refl, h.0, h.1)
IsHeld-worker (suc i) j (w ∷ rest) h = IsHeld-worker i j rest h.1

pub length-put_worker :
    (i : ℕ) (v : Worker) (ws : List Worker) → length (put_worker i v ws) ≡ length ws
length-put_worker i v [] = refl
length-put_worker zero v (w ∷ rest) = refl
length-put_worker (suc i) v (w ∷ rest) = ap suc (length-put_worker i v rest)
