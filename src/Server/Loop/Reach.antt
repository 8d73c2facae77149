-- ===== src/Server/Loop/Reach.antt =====
-- The states that the server and its workers come to, in any order of their steps.
use mathlib.Core.Option.{none-ne-some, some_inj}
use file_transfer_over_udp.Prelude.{
  ℕ, zero, suc, ◌+◌, ◌<◌, ◌≡◌, ◌≢◌, refl, ap, sym, Bool, true, false, not, ◌&&◌, Option, none, some,
  List, [], ◌∷◌, length, if◌then◌else◌, get_elem?, arith,
}
use file_transfer_over_udp.Server.Session.{Session}
use file_transfer_over_udp.Server.Dispatcher.{dispatcher_init}
use file_transfer_over_udp.Server.Worker.{Worker, inactive_jobs, worker_init, Wakeup, worker_turn}
use file_transfer_over_udp.Server.Pool.{
  worker_pool_init, get_least_busy_worker, Taken, waiting, no_inactive_job, no_worker, taken,
  worker_pool_get_job, put_worker,
}
use file_transfer_over_udp.Server.Pool.Balance.{
  inactive, AreBalanced, IsHeld, IsTaken, worker_pool_get_job-IsTaken, put_worker-AreBalanced,
  AreBalanced-at, IsHeld-AreBalanced, length-put_worker,
}
use file_transfer_over_udp.Server.Loop.{
  Reception, message, no_message, was_interrupted, receive_error, Round, Server, ServerState,
  serving, stopped, server_failed, waits, unreachable, on_message, no_request, is_overdue,
  receive_request, serve_round,
}
use file_transfer_over_udp.Server.Loop.Permits.{
  IsReady, IsForActive, IsEnough, worker_turn-IsEnough, on_message-IsReady,
}

-- What a round leaves.
record IsServed (r : ServerState × Server) : Type 0 where
  is_ready : IsReady r.1.workers
  is_defined : r.0 ≢ unreachable

IsServed-if :
    {x y : ServerState × Server} (b : Bool)
    → (b ≡ true → IsServed x)
    → (b ≡ false → IsServed y)
    → IsServed (if b then x else y)
IsServed-if true h k = h refl
IsServed-if false h k = k refl

abbrev is_not_unreachable : ServerState → Bool
is_not_unreachable unreachable = false
is_not_unreachable _ = true

defined : (x : ServerState) → is_not_unreachable x ≡ true → x ≢ unreachable
defined x h e = ground (arith, h, ap is_not_unreachable e)

receive_request-IsServed :
    (i j : ℕ) (round : Round) (s : Server)
    → 0 < length s.workers
    → IsHeld i j s.workers
    → IsServed (receive_request i j round s)
unfolding receive_request
receive_request-IsServed i j round s some_worker h =
    IsServed-if (is_overdue round.now s)
      (λ e. record {
        is_ready = on_message-IsReady i j round no_request s some_worker h;
        is_defined = defined serving refl;
      })
      (λ e.
        IsServed-if (s.metrics_enabled && not round.sets_timeout)
          (λ f. record { is_ready = ready; is_defined = defined server_failed refl })
          (λ f. go round.reception))
  where
    ready : IsReady s.workers
    ready = record { some_worker = some_worker; are_balanced = IsHeld-AreBalanced i j s.workers h }

    go :
        (r : Reception)
        → IsServed (elim r [
          | message m ↦ (serving, on_message i j round m s)
          | no_message ↦
              if s.metrics_enabled
              then (serving, record s { callbacks = s.callbacks + 1; start_time = round.later })
              else (server_failed, s)
          | was_interrupted ↦ (serving, s)
          | receive_error ↦ (server_failed, s)
        ])
    go (message m) = record {
      is_ready = on_message-IsReady i j round m s some_worker h;
      is_defined = defined serving refl;
    }
    go no_message =
        IsServed-if s.metrics_enabled
          (λ f. record { is_ready = ready; is_defined = defined serving refl })
          (λ f. record { is_ready = ready; is_defined = defined server_failed refl })
    go was_interrupted = record { is_ready = ready; is_defined = defined serving refl }
    go receive_error = record { is_ready = ready; is_defined = defined server_failed refl }

serve_round-IsServed :
    (round : Round) (s : Server) → IsReady s.workers → IsServed (serve_round round s)
unfolding serve_round
serve_round-IsServed round s w =
    IsServed-if s.should_stop (λ e. record { is_ready = w; is_defined = defined stopped refl })
      (λ e.
        go (worker_pool_get_job s.workers)
          (worker_pool_get_job-IsTaken s.workers w.some_worker w.are_balanced))
  where
    at : ℕ
    at = get_least_busy_worker s.workers

    go :
        (t : Taken)
        → IsTaken at at s.workers t
        → IsServed (elim t [
          | waiting i ↦ (waits, s)
          | no_inactive_job ↦ (unreachable, s)
          | no_worker ↦ (unreachable, s)
          | taken i j ws ↦ receive_request i j round (record s { workers = ws })
        ])
    go (waiting i) k = record { is_ready = w; is_defined = defined waits refl }
    go no_inactive_job k = absurd k
    go no_worker k = absurd k
    go (taken i j ws) k =
        let size = k.2 in
        let some_worker = w.some_worker in
        receive_request-IsServed i j round (record s { workers = ws })
          (omega (arith, size, some_worker)) (rw (k.0) (k.3))

-- The states that come after `s` by rounds of the server and of its workers, in any order.
pub data Reached (s : Server) : Server → Type 0 where
  here : Reached s s
  served : {t : Server} (round : Round) → Reached s t → Reached s (serve_round round t).1
  worked :
      {t : Server} (i : ℕ) (w : Worker) (posts : Bool) (wakeup : Wakeup)
      → get_elem? t.workers i ≡ some w
      → IsForActive wakeup w
      → Reached s t
      → Reached s
          (record t { workers = put_worker i (worker_turn t.info posts wakeup w).1 t.workers })

Reached-IsReady : {s t : Server} → IsReady s.workers → Reached s t → IsReady t.workers
Reached-IsReady w here = w
Reached-IsReady w (served {t = t} round r) =
    let x = serve_round-IsServed round t (Reached-IsReady w r) in x.is_ready
Reached-IsReady w (worked {t = t} i v posts wakeup at active r) =
    let x = Reached-IsReady w r in
    let next = (worker_turn t.info posts wakeup v).1 in
    record {
      some_worker = rw (length-put_worker i next t.workers) (x.some_worker);
      are_balanced =
          put_worker-AreBalanced i next t.workers
            (worker_turn-IsEnough t.info posts wakeup v active
              (AreBalanced-at i v t.workers at x.are_balanced))
            x.are_balanced;
    }

inactive-inactive_jobs : (n : ℕ) (session : Session) → inactive (inactive_jobs n session) ≡ n
inactive-inactive_jobs zero session = refl
inactive-inactive_jobs (suc n) session = ap suc (inactive-inactive_jobs n session)

worker_init-IsEnough :
    (zeroed : Session) (max_jobs : ℕ) (allocated counts ring_works thread_runs : Bool)
    (answers : List Bool) (w : Worker)
    → worker_init zeroed max_jobs allocated counts ring_works thread_runs answers ≡ some w
    → IsEnough w
unfolding worker_init dispatcher_init
worker_init-IsEnough zeroed max_jobs a c false t answers w e = absurd (none-ne-some w e)
worker_init-IsEnough zeroed max_jobs false c true t answers w e = absurd (none-ne-some w e)
worker_init-IsEnough zeroed max_jobs true false true t answers w e = absurd (none-ne-some w e)
worker_init-IsEnough zeroed max_jobs true true true false answers w e = absurd (none-ne-some w e)
worker_init-IsEnough zeroed max_jobs true true true true answers w e =
    let permits = ap (λ x. x.available_jobs) (some_inj.0 e) in
    let free = ap (λ x. inactive x.jobs) (some_inj.0 e) in
    let count = inactive-inactive_jobs max_jobs zeroed in omega (arith, permits, free, count)

worker_pool_init-AreBalanced :
    (zeroed : Session) (max_jobs : ℕ) (l : List (Bool × Bool × Bool × Bool)) (ws : List Worker)
    → worker_pool_init zeroed max_jobs l ≡ some ws
    → AreBalanced ws × (length ws ≡ length l)
unfolding worker_pool_init
worker_pool_init-AreBalanced zeroed max_jobs [] ws e = rw (sym (some_inj.0 e)) (tt, refl)
worker_pool_init-AreBalanced zeroed max_jobs ((a, c, r, t) ∷ l) ws e =
    go (worker_init zeroed max_jobs a c r t []) (worker_pool_init zeroed max_jobs l)
      (worker_init-IsEnough zeroed max_jobs a c r t [])
      (worker_pool_init-AreBalanced zeroed max_jobs l) e
  where
    go :
        (o : Option Worker) (os : Option (List Worker))
        → ((w : Worker) → o ≡ some w → IsEnough w)
        → ((vs : List Worker) → os ≡ some vs → AreBalanced vs × (length vs ≡ length l))
        → (let t : Option (List Worker) = elim o [
          | none ↦ none
          | some w ↦ elim os [ none ↦ none | some vs ↦ some (w ∷ vs) ]
        ] in
            t ≡ some ws)
        → AreBalanced ws × (length ws ≡ suc (length l))
    go none os h k e = absurd (none-ne-some ws e)
    go (some w) none h k e = absurd (none-ne-some ws e)
    go (some w) (some vs) h k e =
        let rest = k vs refl in rw (sym (some_inj.0 e)) ((h w refl, rest.0), ap suc rest.1)

-- With a pool of one worker at least, that `worker_pool_init` has started, after any rounds of the server and
-- of its workers in any order, events being those of active jobs: `worker_pool_get_job`, once it has
-- a permit, finds an inactive job, so that its `unreachable` is not reached.
pub serve_round_defined :
    (zeroed : Session) (max_jobs : ℕ) (l : List (Bool × Bool × Bool × Bool)) (s t : Server)
    (round : Round)
    → worker_pool_init zeroed max_jobs l ≡ some s.workers
    → 0 < length l
    → Reached s t
    → (serve_round round t).0 ≢ unreachable
serve_round_defined zeroed max_jobs l s t round e some_worker r =
    let (balanced, size) = worker_pool_init-AreBalanced zeroed max_jobs l s.workers e in
    let ready : IsReady s.workers = record {
      some_worker = omega (arith, size, some_worker);
      are_balanced = balanced;
    } in
    let x = serve_round-IsServed round t (Reached-IsReady ready r) in x.is_defined
