-- ===== src/Server/Loop.antt =====
-- The loop of the server that hands requests to its workers: tftp/src/server/server.c.
pub mod Overdue
pub mod Permits
pub mod Reach
use file_transfer_over_udp.Prelude.{
  ℕ, ◌+◌, ◌-◌, ◌≤◌, Bool, true, false, not, ◌&&◌, ◌||◌, Option, none, some, List, [], ◌∷◌, leb,
  ◌==◌, if◌then◌else◌,
}
use file_transfer_over_udp.Inet.{Address, other_family}
use file_transfer_over_udp.Server.Session.{Answer}
use file_transfer_over_udp.Server.Session.Start.{ServerInfo}
use file_transfer_over_udp.Server.Session.Handle.{session_init}
use file_transfer_over_udp.Server.Worker.{Worker}
use file_transfer_over_udp.Server.Pool.{
  Taken, waiting, no_inactive_job, no_worker, taken, worker_pool_get_job, worker_pool_start_job,
}

-- What `recvmsg` leaves: the flags of a cut, the address of the sender, and whether each control
-- message is the original destination of IPv4.
pub record Message : Type 0 where
  pub is_truncated : Bool
  pub is_control_truncated : Bool
  pub peer : Address
  pub controls : List Bool

-- The loop over the control messages.
unfoldable pub has_orig_dest_addr : List Bool → Bool
has_orig_dest_addr [] = false
has_orig_dest_addr (c ∷ rest) = let later = has_orig_dest_addr rest in if c then true else later

-- `parse_request_metadata`: refused, or whether the request came by IPv4.
unfoldable pub parse_request_metadata : Message → Option Bool
parse_request_metadata m =
    if m.is_truncated
    then none
    else if m.is_control_truncated
    then none
    else (elim m.peer [ other_family n ↦ none | _ ↦ some (has_orig_dest_addr m.controls) ])

-- How `recvmsg` ends, as the loop sorts it: a message, no message in time, a signal, or another error.
pub data Reception : Type 0 where
  message : Message → Reception
  no_message was_interrupted receive_error : Reception

-- What a round meets: the clock, the answers of `setsockopt`, `mtx_lock` and `mtx_unlock`, the end of
-- `recvmsg`, what the system will answer to a session, and the clock behind the callback.
pub record Round : Type 0 where
  pub now : ℕ
  pub sets_timeout : Bool
  pub locks : Bool
  pub unlocks : Bool
  pub reception : Reception
  pub answers : List Answer
  pub later : ℕ

-- `struct tftp_server` and the variables of `tftp_server_start`.
pub record Server : Type 0 where
  pub info : ServerInfo
  pub workers : List Worker
  pub should_stop : Bool
  pub metrics_enabled : Bool
  pub interval : ℕ
  pub start_time : ℕ
  pub sessions_count : ℕ
  pub callbacks : ℕ

-- The loop goes on, has returned true or false, waits for a permit of a worker, or is undefined.
pub data ServerState : Type 0 where
  serving stopped server_failed waits unreachable : ServerState

-- The case of a message that is not refused. The `tftp_session_init` of the job stands here, since the
-- session of an inactive job is not used.
unfoldable pub start_session : ℕ → ℕ → Round → Message → Server → Server
start_session i j round m s =
    let (starts, ws) =
      worker_pool_start_job i j (session_init s.info m.peer round.answers) s.workers in
    let count = if starts then s.sessions_count + 1 else s.sessions_count in
    if round.locks
    then record s {
      workers = ws;
      sessions_count = count;
      should_stop = s.should_stop || not round.unlocks;
    }
    else record s { should_stop = true }

-- A message: `SUCCESS`.
unfoldable pub on_message : ℕ → ℕ → Round → Message → Server → Server
on_message i j round m s = elim (parse_request_metadata m) [
  | none ↦ s
  | some is_ipv4 ↦ start_session i j round m s
]

-- What stands in `request_args` when `recvmsg` was not called: zeros, so that the size received is 0, which
-- the loop takes for a message.
abbrev pub no_request : Message
no_request = record {
  is_truncated = false;
  is_control_truncated = false;
  peer = other_family 0;
  controls = [];
}

-- `remaining_time <= 0`: the time of the metrics is over. The clock counts in a unit of its own.
unfoldable pub is_overdue : ℕ → Server → Bool
is_overdue now s = s.metrics_enabled && leb (s.start_time + s.interval) now

-- A round with job `j` of worker `i`, once it is taken.
unfoldable pub receive_request : ℕ → ℕ → Round → Server → ServerState × Server
receive_request i j round s =
    let reported = record s { callbacks = s.callbacks + 1; start_time = round.later } in
    let received : ServerState × Server = elim round.reception [
      | message m ↦ (serving, on_message i j round m s)
      | no_message ↦ if s.metrics_enabled then (serving, reported) else (server_failed, s)
      | was_interrupted ↦ (serving, s)
      | receive_error ↦ (server_failed, s)
    ] in
    if is_overdue round.now s
    then (serving, on_message i j round no_request s)
    else if s.metrics_enabled && not round.sets_timeout
    then (server_failed, s)
    else received

-- A round of the loop of `tftp_server_start`.
unfoldable pub serve_round : Round → Server → ServerState × Server
serve_round round s =
    if s.should_stop then (stopped, s) else (elim (worker_pool_get_job s.workers) [
      | waiting i ↦ (waits, s)
      | no_inactive_job ↦ (unreachable, s)
      | no_worker ↦ (unreachable, s)
      | taken i j ws ↦ receive_request i j round (record s { workers = ws })
    ])

-- The rounds one after the other.
unfoldable pub serve : List Round → Server → ServerState × Server
serve [] s = (serving, s)
serve (round ∷ rest) s =
    let (state, t) = serve_round round s in
    let more = serve rest t in elim state [ serving ↦ more | other ↦ (other, t) ]
