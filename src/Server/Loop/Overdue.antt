-- ===== src/Server/Loop/Overdue.antt =====
-- A server whose metrics are overdue: its rounds take the permits of the workers and give none back.
use file_transfer_over_udp.Prelude.{
  ℕ, ◌+◌, ◌≤◌, ◌<◌, ◌≡◌, refl, ap, true, false, List, [], ◌∷◌, length, arith,
}
use file_transfer_over_udp.Server.Worker.{Worker}
use file_transfer_over_udp.Server.Pool.{
  get_least_busy_worker, Taken, waiting, no_inactive_job, no_worker, taken, worker_pool_get_job,
}
use file_transfer_over_udp.Server.Pool.Balance.{
  total_permits, IsTaken, worker_pool_get_job-IsTaken, IsHeld-AreBalanced,
}
use file_transfer_over_udp.Server.Loop.{
  parse_request_metadata, Round, Server, ServerState, serving, waits, unreachable, on_message,
  is_overdue, receive_request, serve_round, serve,
}
use file_transfer_over_udp.Server.Loop.Permits.{IsReady}

-- Rounds from a time on.
abbrev pub AreFrom : ℕ → List Round → Type 0
AreFrom time [] = Unit
AreFrom time (round ∷ rest) = (time ≤ round.now) × AreFrom time rest

receive_request-overdue :
    (i j : ℕ) (round : Round) (s : Server)
    → s.metrics_enabled ≡ true
    → s.start_time + s.interval ≤ round.now
    → receive_request i j round s ≡ (serving, s)
unfolding receive_request is_overdue on_message parse_request_metadata
receive_request-overdue i j round s on late = ground (arith, on, late)

-- Whether a round waits or takes a permit.
abbrev IsSpent : Server → ServerState × Server → Type 0
IsSpent s (waits, t) = t ≡ s
IsSpent s (serving, t) =
    (ws : List Worker) × (t ≡ record s { workers = ws })
    × (total_permits ws + 1 ≡ total_permits s.workers)
    × IsReady ws
IsSpent s _ = ⊥

serve_round-overdue :
    (round : Round) (s : Server)
    → IsReady s.workers
    → s.should_stop ≡ false
    → s.metrics_enabled ≡ true
    → s.start_time + s.interval ≤ round.now
    → IsSpent s (serve_round round s)
unfolding serve_round
serve_round-overdue round s w running on late = simp running (
    go (worker_pool_get_job s.workers)
      (worker_pool_get_job-IsTaken s.workers w.some_worker w.are_balanced))
  where
    at : ℕ
    at = get_least_busy_worker s.workers

    go :
        (t : Taken)
        → IsTaken at at s.workers t
        → IsSpent s (elim t [
          | waiting i ↦ (waits, s)
          | no_inactive_job ↦ (unreachable, s)
          | no_worker ↦ (unreachable, s)
          | taken i j ws ↦ receive_request i j round (record s { workers = ws })
        ])
    go (waiting i) k = refl
    go no_inactive_job k = absurd k
    go no_worker k = absurd k
    go (taken i j ws) k =
        let size = k.2 in
        let some_worker = w.some_worker in
        rw (receive_request-overdue i j round (record s { workers = ws }) on late) (
          ws,
          refl,
          k.1,
          record {
            some_worker = omega (arith, size, some_worker);
            are_balanced = IsHeld-AreBalanced at j ws k.3;
          },
        )

-- When the time of the metrics is over and rounds follow, more of them than the workers have permits:
-- whatever requests there are, the server ends up waiting for a permit, having started no session and
-- called no callback; no session runs out in the meantime.
pub serve-overdue :
    (rounds : List Round) (s : Server)
    → IsReady s.workers
    → s.should_stop ≡ false
    → s.metrics_enabled ≡ true
    → AreFrom (s.start_time + s.interval) rounds
    → total_permits s.workers < length rounds
    → ((serve rounds s).0 ≡ waits)
      × ((serve rounds s).1.sessions_count ≡ s.sessions_count)
      × ((serve rounds s).1.callbacks ≡ s.callbacks)
unfolding serve
serve-overdue [] s w running on late many = absurd (omega (arith, many))
serve-overdue (round ∷ rest) s w running on late many =
    go (serve_round round s) (serve_round-overdue round s w running on late.0)
      (λ t. serve-overdue rest t)
  where
    go :
        (r : ServerState × Server)
        → IsSpent s r
        → ((t : Server)
            → IsReady t.workers
            → t.should_stop ≡ false
            → t.metrics_enabled ≡ true
            → AreFrom (t.start_time + t.interval) rest
            → total_permits t.workers < length rest
            → ((serve rest t).0 ≡ waits)
              × ((serve rest t).1.sessions_count ≡ t.sessions_count)
              × ((serve rest t).1.callbacks ≡ t.callbacks))
        → (let x : ServerState × Server = elim r.0 [
          | serving ↦ serve rest r.1
          | other ↦ (other, r.1)
        ] in
            (x.0 ≡ waits) × (x.1.sessions_count ≡ s.sessions_count) × (x.1.callbacks ≡ s.callbacks))
    go (waits, t) k later = (refl, ap (λ x. x.sessions_count) k, ap (λ x. x.callbacks) k)
    go (serving, t) (ws, same, fewer, ready) later =
        rw same
          (later (record s { workers = ws }) ready running on late.1 (omega (arith, fewer, many)))
    go (_, t) k later = absurd k
