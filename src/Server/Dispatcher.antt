-- ===== src/Server/Dispatcher.antt =====
-- The dispatcher of tftp/src/server/dispatcher.c. The ring of io_uring is outside: the dispatcher is what
-- it gives to the ring, and the counter of its requests.
pub mod Counter
use file_transfer_over_udp.Prelude.{
  ℕ, ◌+◌, Bool, true, false, Option, none, some, List, [], ◌∷◌, ◌++◌, if◌then◌else◌,
}
use file_transfer_over_udp.Prelude.Words.{Bytes, u8}
use file_transfer_over_udp.Inet.{Address}

-- A submission queue entry, by the `io_uring_prep_*` that fills it. Events are named by their `id`.
pub data Entry : Type 0 where
  nop : Entry
  timeout : ℕ → Entry
  timeout_update timeout_remove cancel : ℕ → Entry
  read : ℕ → Entry
  recvmsg : Entry
  sendto : Bytes → Address → Entry

-- `struct dispatcher`. The answers are those of the next `io_uring_get_sqe` and `io_uring_submit`: whether
-- they succeed; with none left, each does. An entry has the `id` of its event, or none; it is queued in
-- the ring until an `io_uring_submit` succeeds, which submits all that is queued.
pub record Dispatcher : Type 0 where
  pub pending_requests : ℕ
  pub answers : List Bool
  pub queued : List (Entry × Option ℕ)
  pub submitted : List (Entry × Option ℕ)

-- `dispatcher_init`, with the answer of `io_uring_queue_init`.
unfoldable pub dispatcher_init : Bool → List Bool → Option Dispatcher
dispatcher_init ring_works answers =
    if ring_works
    then some (record { pending_requests = 0; answers = answers; queued = []; submitted = [] })
    else none

abbrev pub next_answer : List Bool → Bool
next_answer [] = true
next_answer (b ∷ rest) = b

abbrev pub other_answers : List Bool → List Bool
other_answers [] = []
other_answers (b ∷ rest) = rest

abbrev pub answered : Dispatcher → Dispatcher
answered d = record d { answers = other_answers d.answers }

-- The body that the functions `dispatcher_submit*` share: an entry, its event, and the submission.
unfoldable pub submit_entry : Entry → Option ℕ → Dispatcher → Bool × Dispatcher
submit_entry entry event d =
    let e = answered d in
    let f = answered e in
    let queue = d.queued ++ (entry, event) ∷ [] in
    if next_answer d.answers
    then (if next_answer e.answers
        then (
          true,
          record f {
            pending_requests = u8 (f.pending_requests + 1);
            queued = [];
            submitted = f.submitted ++ queue;
          },
        )
        else (false, record f { queued = queue }))
    else (false, e)

unfoldable pub dispatcher_submit : Option ℕ → Dispatcher → Bool × Dispatcher
dispatcher_submit event d = submit_entry nop event d

unfoldable pub dispatcher_submit_timeout : ℕ → ℕ → Dispatcher → Bool × Dispatcher
dispatcher_submit_timeout seconds event d = submit_entry (timeout seconds) (some event) d

unfoldable pub dispatcher_submit_timeout_update : ℕ → ℕ → Dispatcher → Bool × Dispatcher
dispatcher_submit_timeout_update event event_to_update d =
    submit_entry (timeout_update event_to_update) (some event) d

unfoldable pub dispatcher_submit_timeout_cancel : ℕ → ℕ → Dispatcher → Bool × Dispatcher
dispatcher_submit_timeout_cancel event event_to_cancel d =
    submit_entry (timeout_remove event_to_cancel) (some event) d

unfoldable pub dispatcher_submit_read : ℕ → ℕ → Dispatcher → Bool × Dispatcher
dispatcher_submit_read event n_bytes d = submit_entry (read n_bytes) (some event) d

unfoldable pub dispatcher_submit_recvmsg : ℕ → Dispatcher → Bool × Dispatcher
dispatcher_submit_recvmsg event d = submit_entry recvmsg (some event) d

unfoldable pub dispatcher_submit_sendto : ℕ → Bytes → Address → Dispatcher → Bool × Dispatcher
dispatcher_submit_sendto event packet address d =
    submit_entry (sendto packet address) (some event) d

unfoldable pub dispatcher_submit_cancel : Option ℕ → ℕ → Dispatcher → Bool × Dispatcher
dispatcher_submit_cancel event event_to_cancel d = submit_entry (cancel event_to_cancel) event d

-- What `io_uring_wait_cqe` gives: it is interrupted, or fails, or has a completion: its event, and the
-- number in `res`, which is an error if the flag is false.
pub data Wait : Type 0 where
  interrupted wait_failed : Wait
  completion : Option ℕ → Bool → ℕ → Wait

-- What becomes of the event of a completion: `is_success`, and `result` or `error_number`.
pub record Completed : Type 0 where
  pub event : Option ℕ
  pub is_success : Bool
  pub number : ℕ

-- `dispatcher_wait_event`. The counter is decremented, which wraps at 0.
unfoldable pub dispatcher_wait_event : Wait → Dispatcher → Option Completed × Dispatcher
dispatcher_wait_event interrupted d = (none, d)
dispatcher_wait_event wait_failed d = (none, d)
dispatcher_wait_event (completion event is_success number) d = (
  some (record { event = event; is_success = is_success; number = number }),
  record d { pending_requests = u8 (d.pending_requests + 255) },
)
