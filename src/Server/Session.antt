-- ===== src/Server/Session.antt =====
-- The state of a session (`struct tftp_session` of tftp/src/server/session.h), what it sees of the
-- outside, and the way its handlers are put together.
pub mod Steps
pub mod Calls
pub mod Fetch
pub mod Timer
pub mod Receive
pub mod Files
pub mod Start
pub mod Handle
pub mod Pending
pub mod InOrder
use file_transfer_over_udp.Prelude.{
  ℕ, ◌+◌, ◌-◌, ◌==◌, Bool, true, false, Option, none, some, List, [], ◌∷◌, ◌++◌, if◌then◌else◌,
}
use file_transfer_over_udp.Prelude.Words.{Bytes, u8, u16}
use file_transfer_over_udp.Wire.{Mode}
use file_transfer_over_udp.Wire.Options.{Options}
use file_transfer_over_udp.Inet.{Address}

-- `enum session_request_type`.
pub data RequestType : Type 0 where
  read_request write_request : RequestType

-- `enum event`: the asynchronous requests of a session, each by the event that completes it.
pub data Job : Type 0 where
  start_job data_job packet_job packet_removal timeout_job timeout_removal : Job

-- `struct tftp_session_stats_error`.
pub record SessionError : Type 0 where
  pub error_occurred : Bool
  pub number : ℕ
  pub message : Bytes

-- A packet in `data_packets`: the block number in its header, and its data area as far as it was
-- written.
pub record Slot : Type 0 where
  pub block_number : ℕ
  pub payload : Bytes

-- What a session does to the outside, in order. A packet goes to an address; the last three are the
-- calls of the adaptive timeout.
pub data Action : Type 0 where
  sent : Address → Bytes → Action
  submitted : Job → Action
  written : Bytes → Action
  measure_started measure_stopped backed_off : Action
  reported : Action

-- How the system answers a call that can fail: it does it, does a part of it (a `sendto` that sends
-- less), or fails.
pub data Answer : Type 0 where
  done part_done failure : Answer

-- `struct tftp_session`. The fields from `client_address` on are the outside: the answers of the next
-- system calls (with none left, each succeeds), the bytes of the file that are not read yet, whether
-- there is a file that is open and whether it can be sought in, and what the session has done.
pub record Session : Type 0 where
  pub request_type : RequestType
  pub mode : Mode
  pub retries : ℕ
  pub timeout : ℕ
  pub block_size : ℕ
  pub window_size : ℕ
  pub is_timer_active : Bool
  pub is_adaptive_timeout_active : Bool
  pub is_measuring : Bool
  pub measured_block : ℕ
  pub current_retransmission : ℕ
  pub total_retransmissions : ℕ
  pub window_begin : ℕ
  pub next_data_packet_to_send : ℕ
  pub expected_sequence_number : ℕ
  pub netascii_buffer : Option ℕ
  pub last_packet : Option ℕ
  pub last_block_size : ℕ
  pub incomplete_read : Bool
  pub valid_options_required : Bool
  pub options_acknowledged : Bool
  pub recognized_options : Options
  pub oack_packet : Bytes
  pub recv_buffer_size : ℕ
  pub is_fetching_data : Bool
  pub should_close : Bool
  pub pending_jobs : ℕ
  pub slots : ℕ → Slot
  pub error : SessionError
  pub bytes_sent : ℕ
  pub packets_sent : ℕ
  pub packets_acked : ℕ
  pub client_address : Address
  pub answers : List Answer
  pub source : Bytes
  pub is_open : Bool
  pub is_seekable : Bool
  pub actions : List Action

-- A handler ends with the `true` or `false` that it returns, or runs for ever.
pub data Outcome : Type 0 where
  succeeded failed diverged : Outcome

abbrev pub Handler : Type 0
Handler = Session → Outcome × Session

-- `if (!f(session)) return false;` and go on.
infixl 5 ◌>>◌
unfoldable pub ◌>>◌ : Handler → Handler → Handler
◌>>◌ f g s = let (o, t) = f s in elim o [ succeeded ↦ g t | other ↦ (other, t) ]

unfoldable pub skip : Handler
skip s = (succeeded, s)

unfoldable pub fail : Handler
fail s = (failed, s)

-- An assignment.
unfoldable pub assign : (Session → Session) → Handler
assign f s = (succeeded, f s)

-- A statement that reads the state.
unfoldable pub reading : (Session → Handler) → Handler
reading f s = f s s

unfoldable pub when : Bool → Handler → Handler
when b h = if b then h else skip

-- Unfolds all of these.
unfoldable pub combinators : Bool
unfolding ◌>>◌ skip fail assign reading when
combinators = true

-- `session->data_packets` after a write to one slot.
abbrev pub update : (ℕ → Slot) → ℕ → Slot → ℕ → Slot
update slots i v j = if j == i then v else slots j
