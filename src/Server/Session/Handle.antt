-- ===== src/Server/Session/Handle.antt =====
-- `tftp_session_init` and `tftp_session_handle_event` of tftp/src/server/session.c.
pub mod Trace
use file_transfer_over_udp.Prelude.{
  ℕ, ◌+◌, ◌-◌, Bool, true, false, not, ◌&&◌, ◌||◌, Option, none, some, List, [], ◌∷◌, ◌++◌, ◌==◌,
  if◌then◌else◌,
}
use file_transfer_over_udp.Prelude.Words.{Bytes}
use file_transfer_over_udp.Wire.{Mode, octet, netascii, invalid, default_blksize}
use file_transfer_over_udp.Wire.Options.{no_options}
use file_transfer_over_udp.Wire.Packet.{encode_ack}
use file_transfer_over_udp.Window.{has_room}
use file_transfer_over_udp.Inet.{Address}
use file_transfer_over_udp.Server.Session.{
  Session, Slot, RequestType, read_request, write_request, Action, sent, reported, Answer, failure,
  Outcome, succeeded, failed, diverged, Handler, ◌>>◌, skip, fail, assign, reading, when,
}
use file_transfer_over_udp.Server.Session.Calls.{
  act, answer, answered, job_done, send_oack, recv_async,
}
use file_transfer_over_udp.Server.Session.Fetch.{
  ReadResult, fetch_data_octet_async, fetch_data_netascii_async, on_data_available,
}
use file_transfer_over_udp.Server.Session.Timer.{on_timeout}
use file_transfer_over_udp.Server.Session.Receive.{Received, on_packet_received}
use file_transfer_over_udp.Server.Session.Files.{FileSystem}
use file_transfer_over_udp.Server.Session.Start.{ServerInfo, start}

-- `tftp_session_init`, with the address of the client and the outside that the session will meet.
unfoldable pub session_init : ServerInfo → Address → List Answer → Session
session_init info address answers = record {
  request_type = read_request;
  mode = octet;
  retries = info.retries;
  timeout = info.timeout;
  block_size = default_blksize;
  window_size = 1;
  is_timer_active = false;
  is_adaptive_timeout_active = false;
  is_measuring = false;
  measured_block = 0;
  current_retransmission = 0;
  total_retransmissions = 0;
  window_begin = 1;
  next_data_packet_to_send = 1;
  expected_sequence_number = 1;
  netascii_buffer = none;
  last_packet = none;
  last_block_size = 0;
  incomplete_read = false;
  valid_options_required = false;
  options_acknowledged = false;
  recognized_options = no_options;
  oack_packet = [];
  recv_buffer_size = 0;
  is_fetching_data = false;
  should_close = false;
  pending_jobs = 0;
  slots = λ i. record { block_number = 0; payload = [] };
  error = record { error_occurred = false; number = 0; message = [] };
  bytes_sent = 0;
  packets_sent = 0;
  packets_acked = 0;
  client_address = address;
  answers = answers;
  source = [];
  is_open = false;
  is_seekable = true;
  actions = [];
}

-- The results of the events. A timeout ends by itself, or because it was removed (`ENOENT`,
-- `ECANCELED`); a removal succeeds or fails in a way that is expected, or fails otherwise; a receive
-- is cancelled, fails or gets a datagram.
pub data Event : Type 0 where
  start_event : FileSystem → Bytes → Event
  timeout_expired timeout_cancelled : Event
  timeout_removed timeout_removal_failed : Event
  packet_received : Received → Event
  packet_cancelled : Event
  packet_removed packet_removal_failed : Event
  data_available : ReadResult → Event

-- `enum tftp_session_state`; `hung` is a handler that does not come back.
pub data SessionState : Type 0 where
  idle error closed hung : SessionState

-- The answer of the server to a request without options is a DATA packet or the ACK of block 0. The
-- test of that `sendto` is of 0 and not of -1, so the session goes on if it fails.
unfoldable pub send_first_ack : Handler
send_first_ack s = elim (answer s.answers) [
  | failure ↦ (succeeded, answered s)
  | _ ↦ (succeeded, act (sent s.client_address (encode_ack 0)) (answered s))
]

-- The case `EVENT_START`.
unfoldable pub on_start : ServerInfo → FileSystem → Bytes → Handler
on_start info fs request =
    start info fs request
    >> reading (λ s. when (not s.should_close) (
        reading (λ t.
          if t.valid_options_required && not t.options_acknowledged
          then send_oack
          else elim t.request_type [ write_request ↦ send_first_ack | read_request ↦ skip ])
        >> recv_async))

-- The `switch` over the events, up to the `break`.
unfoldable pub dispatch : ServerInfo → Event → Handler
dispatch info (start_event fs request) = on_start info fs request
dispatch info timeout_expired =
    assign job_done
    >> reading (λ s. when (not (s.should_close || not s.is_timer_active)) on_timeout)
dispatch info timeout_cancelled = assign job_done
dispatch info timeout_removed = assign job_done
dispatch info timeout_removal_failed = assign job_done >> fail
dispatch info (packet_received r) =
    assign job_done
    >> reading (λ s.
      when (not s.should_close)
        (on_packet_received r >> reading (λ t. when (not t.should_close) recv_async)))
dispatch info packet_cancelled = assign job_done
dispatch info packet_removed = assign job_done
dispatch info packet_removal_failed = assign job_done >> fail
dispatch info (data_available r) =
    assign (λ s. record (job_done s) { is_fetching_data = false }) >> on_data_available r

-- `should_fetch_data`.
unfoldable pub should_fetch_data : Session → Bool
should_fetch_data s =
    (elim s.request_type [ read_request ↦ true | write_request ↦ false ])
    && not s.is_fetching_data
    && not s.should_close
    && (not s.valid_options_required || s.options_acknowledged)
    && (elim s.last_packet [ none ↦ true | some n ↦ false ])
    && has_room s.window_begin s.window_size s.next_data_packet_to_send

-- The fetch of the next block behind the `switch`.
unfoldable pub fetch_next : Handler
fetch_next = reading (λ s. when (should_fetch_data s) (
    assign (λ t. record t { is_fetching_data = true })
    >> (λ t. elim t.mode [ octet ↦ fetch_data_octet_async t | _ ↦ fetch_data_netascii_async t ])))

-- The end of the handler: the session closes once no job is pending, and reports its statistics.
unfoldable pub close_or_idle : Session → SessionState × Session
close_or_idle s =
    if s.should_close && s.pending_jobs == 0 then (closed, act reported s) else (idle, s)

-- `tftp_session_handle_event`.
unfoldable pub handle_event : ServerInfo → Event → Session → SessionState × Session
handle_event info event s =
    let (o, t) = (dispatch info event >> fetch_next) s in
    elim o [ succeeded ↦ close_or_idle t | failed ↦ (error, t) | diverged ↦ (hung, t) ]

-- The events of a session one after the other, up to its end.
unfoldable pub run : ServerInfo → List Event → Session → SessionState × Session
run info [] s = (idle, s)
run info (e ∷ rest) s =
    let (state, t) = handle_event info e s in
    elim state [ idle ↦ run info rest t | other ↦ (other, t) ]
