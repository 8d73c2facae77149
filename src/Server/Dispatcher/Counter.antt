-- ===== src/Server/Dispatcher/Counter.antt =====
-- What `pending_requests` counts.
use file_transfer_over_udp.Prelude.{
  ℕ, ◌+◌, ◌-◌, ◌≤◌, ◌<◌, ◌≡◌, refl, Bool, not, ◌&&◌, Option, [], ◌∷◌, ◌++◌, length, length-append,
  if◌then◌else◌, arith,
}
use file_transfer_over_udp.Prelude.Words.{u8}
use file_transfer_over_udp.Server.Dispatcher.{
  Entry, Dispatcher, next_answer, answered, submit_entry, completion, dispatcher_wait_event,
}

-- 1 for a submission that gets an entry of the ring, and whose `io_uring_submit` fails.
abbrev pub missed : Dispatcher → ℕ
missed d = if next_answer d.answers && not (next_answer (answered d).answers) then 1 else 0

-- The life of a dispatcher, with the number of completions that it has seen, and of the submissions whose
-- `io_uring_submit` has failed. A completion is one of a request that was submitted and not yet completed.
pub data Run : ℕ → ℕ → Dispatcher → Type 0 where
  started : {d : Dispatcher} → d.pending_requests ≡ 0 → d.queued ≡ [] → d.submitted ≡ [] → Run 0 0 d
  submits :
      {n lost : ℕ} {d : Dispatcher} (entry : Entry) (event : Option ℕ)
      → Run n lost d
      → Run n (lost + missed d) (submit_entry entry event d).1
  completes :
      {n lost : ℕ} {d : Dispatcher} (event : Option ℕ) (is_success : Bool) (number : ℕ)
      → n < length d.submitted
      → Run n lost d
      → Run (n + 1) lost (dispatcher_wait_event (completion event is_success number) d).1

record IsCounted (n lost : ℕ) (d : Dispatcher) : Type 0 where
  few_completions : n ≤ length d.submitted
  count : u8 (d.pending_requests + lost) ≡ u8 (length d.submitted + length d.queued - n)

IsCounted-submit_entry :
    (n lost : ℕ) (entry : Entry) (event : Option ℕ) (d : Dispatcher)
    → IsCounted n lost d
    → IsCounted n (lost + missed d) (submit_entry entry event d).1
unfolding submit_entry
IsCounted-submit_entry n lost entry event d w =
    let queue = length-append d.queued ((entry, event) ∷ []) in
    let more = length-append d.submitted (d.queued ++ (entry, event) ∷ []) in
    let few = w.few_completions in
    let count = w.count in
    record {
      few_completions = ground (arith, more, queue, few);
      count = ground (arith, more, queue, few, count);
    }

IsCounted-completion :
    (n lost : ℕ) (event : Option ℕ) (is_success : Bool) (number : ℕ) (d : Dispatcher)
    → n < length d.submitted
    → IsCounted n lost d
    → IsCounted (n + 1) lost (dispatcher_wait_event (completion event is_success number) d).1
unfolding dispatcher_wait_event
IsCounted-completion n lost event is_success number d h w =
    let count = w.count in record { few_completions = omega arith; count = omega (arith, count, h) }

Run-IsCounted : {n lost : ℕ} {d : Dispatcher} → Run n lost d → IsCounted n lost d
Run-IsCounted (started {d = d} p q s) = record {
  few_completions = omega arith;
  count = rw p (rw q (rw s refl));
}
Run-IsCounted (submits {n = n} {lost = lost} {d = d} entry event r) =
    IsCounted-submit_entry n lost entry event d (Run-IsCounted r)
Run-IsCounted (completes {n = n} {lost = lost} {d = d} event is_success number h r) =
    IsCounted-completion n lost event is_success number d h (Run-IsCounted r)

-- After any submissions and `n` completions of submitted requests, the counter and the number of failed
-- calls of `io_uring_submit` are together, modulo 256, the number of requests that are in the ring, submitted
-- or queued there by a failed call, and not completed.
pub pending_requests_count :
    (n lost : ℕ) (d : Dispatcher)
    → Run n lost d
    → (n ≤ length d.submitted)
      × (u8 (d.pending_requests + lost) ≡ u8 (length d.submitted + length d.queued - n))
pending_requests_count n lost d r = let w = Run-IsCounted r in (w.few_completions, w.count)
