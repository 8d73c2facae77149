-- ===== src/Client/Transfer.antt =====
-- The requests of the client as a whole: `tftp_client_read` and `tftp_client_write` of
-- tftp/src/client/client.c, with the request packets that they send.
pub mod Silence
use file_transfer_over_udp.Prelude.{
  ℕ, ◌+◌, Bool, true, false, not, ◌&&◌, ◌||◌, Option, none, some, List, [], ◌∷◌, length, take, ltb,
  ◌==◌, if◌then◌else◌,
}
use file_transfer_over_udp.Prelude.Words.{Bytes}
use file_transfer_over_udp.Inet.{Address}
use file_transfer_over_udp.Wire.{
  Opcode, rrq, wrq, oack, ack, error, Mode, get_opcode, word_at, default_blksize,
}
use file_transfer_over_udp.Wire.Options.{no_options}
use file_transfer_over_udp.Wire.Request.{request_packet_init}
use file_transfer_over_udp.Client.{Request, Effect, succeeds, answered, send_to, packet_buffer_size}
use file_transfer_over_udp.Client.Choice.{ClientOptions, Chosen, options_init}
use file_transfer_over_udp.Client.Oack.{handle_oack_packet}
use file_transfer_over_udp.Client.Receive.{
  Arrival, timed_out, receive_failed, datagram, Receiver, Progress, going, complete, failed,
  undefined, receive_file,
}
use file_transfer_over_udp.Client.Send.{Sender, Turn, overwrite, send_file}

-- `send_rrq_packet` and `send_wrq_packet`, which differ in what they log.
unfoldable pub send_rrq_packet : Bytes → Request → Bool × Request
send_rrq_packet packet r = send_to r.server_addr packet r

-- `send_rrq` and `send_wrq`, which differ in the opcode only: a request that is sent is kept for a
-- retransmission.
unfoldable pub send_request_packet : Opcode → Bytes → Mode → Request → Bool × Request
send_request_packet opcode filename mode r =
    elim (request_packet_init opcode filename mode r.options) [
      | none ↦ (false, r)
      | some packet ↦
          let (sent, s) = send_rrq_packet packet r in
          (sent, if sent then record s { last_packet_sent = packet } else s)
    ]

-- `send_read_request` and `send_write_request`, with the answer of `getsockname`.
unfoldable pub send_request : Opcode → Bytes → Mode → Request → Bool × Request
send_request opcode filename mode r =
    let (sent, s) = send_request_packet opcode filename mode r in
    if sent then (succeeds s.answers, answered s) else (false, s)

-- The end of a request: how far it comes, and what the program is told of it.
pub record Response : Type 0 where
  pub progress : Progress
  pub request : Request

-- The end of `handle_get_request` behind `receive_file`.
unfoldable pub check_size : Progress → Request → Response
check_size complete r = record {
  progress = if r.use_tsize && not (r.file_bytes_transferred == r.tsize) then failed else complete;
  request = r;
}
check_size other r = record { progress = other; request = r }

-- `handle_get_request`, with the answer of `malloc`.
unfoldable pub handle_get_request : Bytes → Mode → List Arrival → Request → Response
handle_get_request filename mode arrivals r =
    let (sent, s) = send_request rrq filename mode r in
    let t = record (answered s) { packet_recv_buffer_size = packet_buffer_size s.block_size } in
    let start : Receiver = record {
      request = t;
      is_first_receive = true;
      expected_sequence_number = 1;
      retransmissions = 0;
    } in
    let (progress, v) = receive_file arrivals start in
    if not sent
    then record { progress = failed; request = s }
    else if succeeds s.answers
    then check_size progress v.request
    else record { progress = failed; request = t }

-- The first ACK of a write request; one of another block is only logged.
unfoldable pub accept_first_ack : ℕ → Request → Request
accept_first_ack block_number r =
    if block_number == 0 && r.use_options
    then record r {
      use_options = false;
      block_size = default_blksize;
      timeout_s = 2;
      use_tsize = false;
    }
    else r

-- What the first reply to a write request leads to: `going` for the file to be sent. An OACK is followed by
-- the file whether it is accepted or not. New sizes make `handle_oack_packet` call `realloc` on the
-- array `recv_buffer`, and a short packet leaves parts of that array without a value.
unfoldable pub on_first_reply : Address → Bytes → Request → Progress × Request
on_first_reply address packet r =
    let s = record r { server_addr = address } in
    let t = (handle_oack_packet packet s).1 in
    if ltb (length packet) 2 then (undefined, s) else elim (get_opcode packet) [
      | oack ↦
          if not s.use_options
          then (failed, s)
          else if t.block_size == s.block_size && t.window_size == s.window_size
          then (going, t)
          else (undefined, t)
      | ack ↦
          if ltb (length packet) 4
          then (undefined, s)
          else (going, accept_first_ack (word_at packet 2) s)
      | error ↦ (failed, record s { server_may_not_support_options = s.use_options })
      | _ ↦ (failed, s)
    ]

abbrev pub oack_packet_max_size : ℕ
oack_packet_max_size = 512

-- The loop of `handle_put_request` that sends the request until there is a reply: how it ends, with the
-- bytes of the reply.
unfoldable pub request_put : Bytes → Mode → List Arrival → ℕ → Request → Progress × Request × Bytes
request_put filename mode [] retransmissions r = (going, r, [])
request_put filename mode (a ∷ rest) retransmissions r =
    let (sent, s) = send_request wrq filename mode r in
    let more = request_put filename mode rest (retransmissions + 1) s in
    let ended : Progress × Request × Bytes = elim a [
      | timed_out ↦
          if retransmissions == r.retries
          then (failed, record s { server_may_not_support_options = s.use_options }, [])
          else more
      | receive_failed ↦ (failed, s, [])
      | datagram address packet ↦
          let received = take oack_packet_max_size packet in
          let (progress, t) = on_first_reply address received s in
          elim progress [ going ↦ (complete, t, received) | other ↦ (other, t, []) ]
    ] in
    if sent then ended else (failed, s, [])

-- `handle_put_request`: what arrives until there is a reply, and what happens while the file is sent. The
-- array `recv_buffer` has any contents first.
unfoldable pub handle_put_request :
    Bytes → Mode → (ℕ → Bytes) → Bytes → Bytes → List Arrival → List Turn → Request → Response
handle_put_request filename mode memory recv_buffer source arrivals turns r =
    let (progress, s, reply) =
      request_put filename mode arrivals 0
        (record r { packet_recv_buffer_size = oack_packet_max_size }) in
    let (sending, v) = send_file memory (overwrite reply recv_buffer) source turns s in
    elim progress [
      | complete ↦ record { progress = sending; request = v.request }
      | other ↦ record { progress = other; request = s }
    ]

-- The request that `tftp_client_read` and `tftp_client_write` start with. Without client options the rest
-- of it is zeros.
unfoldable pub request_init : Bool → ℕ → Option ClientOptions → Address → List Bool → Request
request_init is_get retries options address answers =
    let zeros : Chosen = record {
      timeout_s = 0;
      block_size = 0;
      window_size = 0;
      use_tsize = false;
      use_adaptive_timeout = false;
      options = no_options;
      use_options = false;
    } in
    let chosen : Chosen = elim options [ none ↦ zeros | some o ↦ options_init is_get o ] in
    record {
      is_get = is_get;
      retries = retries;
      use_options = chosen.use_options;
      options = chosen.options;
      timeout_s = chosen.timeout_s;
      block_size = chosen.block_size;
      window_size = chosen.window_size;
      use_tsize = chosen.use_tsize;
      tsize = 0;
      use_adaptive_timeout = chosen.use_adaptive_timeout;
      last_packet_sent = [];
      packet_recv_buffer_size = 0;
      server_may_not_support_options = false;
      file_bytes_transferred = 0;
      server_addr = address;
      answers = answers;
      effects = [];
    }

-- `tftp_client_read`, from the address that `connection_init` has found, with the answer of
-- `connection_set_recv_timeout` as the first one.
unfoldable pub tftp_client_read :
    ℕ → Bytes → Mode → Option ClientOptions → Address → List Bool → List Arrival → Response
tftp_client_read retries filename mode options address answers arrivals =
    let r = request_init true retries options address answers in
    if succeeds r.answers
    then handle_get_request filename mode arrivals (answered r)
    else record { progress = failed; request = answered r }

-- `tftp_client_write`.
unfoldable pub tftp_client_write :
    ℕ
    → Bytes
    → Mode
    → Option ClientOptions
    → Address
    → List Bool
    → (ℕ → Bytes)
    → Bytes
    → Bytes
    → List Arrival
    → List Turn
    → Response
tftp_client_write retries filename mode options address answers memory recv_buffer source arrivals
      turns =
    let r = request_init false retries options address answers in
    if succeeds r.answers
    then handle_put_request filename mode memory recv_buffer source arrivals turns (answered r)
    else record { progress = failed; request = answered r }
