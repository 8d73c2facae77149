-- ===== src/Server/Session/InOrder.antt =====
-- A write request from its first DATA packet on: the file that `on_packet_received` writes, whatever
-- the order in which the packets of the client arrive.
pub mod Delivery
use file_transfer_over_udp.Prelude.{
  ℕ, ◌+◌, ◌%◌, ◌<◌, ◌≤◌, take_all, ◌≡◌, ◌≢◌, refl, sym, ap, ◌∙◌, Bool, true, false, not, ◌&&◌, ◌||◌,
  List, [], ◌∷◌, ◌++◌, map, length, ltb, ◌==◌, if◌then◌else◌, arith, Bool-cases, inl, inr, drop,
}
use mathlib.Core.List.{append_assoc}
use file_transfer_over_udp.Prelude.Words.{Bytes, u8, u16, u16_mod}
use file_transfer_over_udp.Inet.{Address, sockaddr_equals, has_known_family, sockaddr_equals_iff}
use file_transfer_over_udp.Wire.{get_opcode, block, word_at}
use file_transfer_over_udp.Wire.Packet.{data_packet_init, encode_ack}
use file_transfer_over_udp.Server.Session.{
  Session, Action, ◌>>◌, reading, when, assign, sent, written, write_request, succeeded,
  combinators, submitted, packet_job,
}
use file_transfer_over_udp.Server.Session.Steps.{
  >>-succeeded, assign_lem, reading_lem, when-true, when-false,
}
use file_transfer_over_udp.Server.Session.Calls.{
  act, answered, call, send, send_to, submit, recv_async, job_done,
}
use file_transfer_over_udp.Server.Session.Receive.{
  Received, datagram, write_data, accept_data, on_data, on_client_packet, on_packet_received,
}
use file_transfer_over_udp.Server.Session.Start.{ServerInfo}
use file_transfer_over_udp.Server.Session.Handle.{
  Event, SessionState, idle, closed, packet_received, dispatch, should_fetch_data, fetch_next,
  close_or_idle, handle_event, run,
}

-- A DATA packet of the client.
abbrev pub data_event : Address → ℕ × Bytes → Event
data_event client (n, payload) = packet_received (datagram client (data_packet_init n ++ payload))

-- What the client and the file see of a session: the packets and the writes, in order.
abbrev pub visible : List Action → List Action
visible [] = []
visible (sent address packet ∷ rest) = sent address packet ∷ visible rest
visible (written payload ∷ rest) = written payload ∷ visible rest
visible (_ ∷ rest) = visible rest

pub visible-append : (a b : List Action) → visible (a ++ b) ≡ visible a ++ visible b
visible-append [] b = refl
visible-append (sent address packet ∷ a) b = ap (◌∷◌ (sent address packet)) (visible-append a b)
visible-append (written payload ∷ a) b = ap (◌∷◌ (written payload)) (visible-append a b)
visible-append (_ ∷ a) b = visible-append a b

-- The receiver of RFC 1350, for blocks of `size` bytes: it takes the block that it expects, writes it
-- and acknowledges it, ignores any other, and is done with the first short one.
unfoldable pub receive_in_order : Address → ℕ → ℕ → List (ℕ × Bytes) → List Action
receive_in_order client size expected [] = []
receive_in_order client size expected ((n, payload) ∷ rest) =
    let more = receive_in_order client size (u16 (expected + 1)) rest in
    let ignoring = receive_in_order client size expected rest in
    let last : List Action = if ltb (length payload) size then [] else more in
    if n == expected then written payload ∷ sent client (encode_ack n) ∷ last else ignoring

-- A write request that goes on, with its file: as long as the options are not acknowledged, block 1 is expected.
pub record IsReceiving (client : Address) (s : Session) : Type 0 where
  pub is_write : s.request_type ≡ write_request
  pub is_client : s.client_address ≡ client
  pub is_known : has_known_family client ≡ true
  pub no_failure : s.answers ≡ []
  pub is_open : s.is_open ≡ true
  pub first_block :
      (not s.options_acknowledged && s.valid_options_required) ≡ true
      → s.expected_sequence_number ≡ 1

-- The session after an expected block.
abbrev pub accepted : ℕ → Bytes → Session → Session
accepted n payload s =
    record (act (sent s.client_address (encode_ack n)) (act (written payload) s)) {
      answers = [];
      bytes_sent = s.bytes_sent + length payload;
      expected_sequence_number = u16 (s.expected_sequence_number + 1);
      packets_acked = s.packets_acked + 1;
      current_retransmission = 0;
      should_close = ltb (length payload) s.block_size;
    }

accept_data_lem :
    (n : ℕ) (payload : Bytes) (s : Session)
    → s.answers ≡ []
    → s.is_open ≡ true
    → accept_data n payload s ≡ (succeeded, accepted n payload s)
unfolding accept_data write_data call send send_to combinators
accept_data_lem n payload s a o = ground (arith, a, o)

sockaddr_equals_refl : (a : Address) → has_known_family a ≡ true → sockaddr_equals a a ≡ true
sockaddr_equals_refl a k = (sockaddr_equals_iff a a).1 (refl, k)

-- A DATA packet of the client comes to `on_data`.
on_packet_received-data :
    (client : Address) (n : ℕ) (payload : Bytes) (s : Session)
    → n < u16_mod
    → length payload + 4 ≤ s.recv_buffer_size
    → IsReceiving client s
    → on_packet_received (datagram client (data_packet_init n ++ payload)) s ≡ on_data n payload s
unfolding on_packet_received on_client_packet data_packet_init get_opcode
on_packet_received-data client n payload s h fits w =
    let whole = take_all s.recv_buffer_size (data_packet_init n ++ payload) (omega (arith, fits)) in
    let same = sockaddr_equals_refl client w.is_known in
    let c = w.is_client in
    let k = w.is_known in let r = w.is_write in ground (arith, whole, same, c, k, r)

abbrev pub acknowledged : ℕ → Session → Session
acknowledged n s = record s {
  options_acknowledged = s.options_acknowledged || s.valid_options_required && n == 1;
}

pub on_data_lem :
    (client : Address) (n : ℕ) (payload : Bytes) (s : Session)
    → IsReceiving client s
    → on_data n payload s ≡ (
      succeeded,
      if n == s.expected_sequence_number then accepted n payload (acknowledged n s) else s,
    )
unfolding on_data
on_data_lem client n payload s w =
    let first =
      accept_data_lem n payload (record s { options_acknowledged = true }) w.no_failure w.is_open in
    let later = accept_data_lem n payload s w.no_failure w.is_open in
    let start = w.first_block in ground (arith, first, later, start)

-- The session asks for the next packet.
abbrev pub listening : Session → Session
listening s = record (act (submitted packet_job) s) {
  answers = [];
  pending_jobs = u8 (s.pending_jobs + 1);
}

recv_async_lem : (s : Session) → s.answers ≡ [] → recv_async s ≡ (succeeded, listening s)
unfolding recv_async submit call
recv_async_lem s a = ground arith

listens_while_open :
    (s : Session)
    → s.answers ≡ []
    → reading (λ t. when (not t.should_close) recv_async) s
      ≡ (succeeded, if s.should_close then s else listening s)
unfolding combinators
listens_while_open s a = ground (arith, recv_async_lem s a)

-- A write request after a DATA packet.
abbrev pub received : ℕ → Bytes → Session → Session
received n payload s =
    if n == s.expected_sequence_number then accepted n payload (acknowledged n s) else s

abbrev pub after_data : ℕ → Bytes → Session → Session
after_data n payload s = let t = received n payload s in if t.should_close then t else listening t

received_no_failure :
    (n : ℕ) (payload : Bytes) (s : Session) → s.answers ≡ [] → (received n payload s).answers ≡ []
received_no_failure n payload s a = ground arith

packet_lem :
    (client : Address) (n : ℕ) (payload : Bytes) (s : Session)
    → n < u16_mod
    → length payload + 4 ≤ s.recv_buffer_size
    → IsReceiving client s
    → (on_packet_received (datagram client (data_packet_init n ++ payload))
          >> reading (λ t. when (not t.should_close) recv_async))
        s
      ≡ (succeeded, after_data n payload s)
packet_lem client n payload s h fits w =
    let a = received_no_failure n payload s w.no_failure in
    >>-succeeded _ _
      (on_packet_received-data client n payload s h fits w ∙ on_data_lem client n payload s w)
      (listens_while_open (received n payload s) a)

pub IsReceiving-job_done :
    (client : Address) (s : Session) → IsReceiving client s → IsReceiving client (job_done s)
IsReceiving-job_done client s w = record {
  is_write = w.is_write;
  is_client = w.is_client;
  is_known = w.is_known;
  no_failure = w.no_failure;
  is_open = w.is_open;
  first_block = w.first_block;
}

pub dispatch-data :
    (info : ServerInfo) (client : Address) (n : ℕ) (payload : Bytes) (s : Session)
    → n < u16_mod
    → length payload + 4 ≤ s.recv_buffer_size
    → IsReceiving client s
    → s.should_close ≡ false
    → dispatch info (data_event client (n, payload)) s
      ≡ (succeeded, after_data n payload (job_done s))
unfolding dispatch
dispatch-data info client n payload s h fits w going = >>-succeeded _ _ (assign_lem job_done s) (
    reading_lem _ (
      when-true _ (ap not going)
        (packet_lem client n payload (job_done s) h fits (IsReceiving-job_done client s w))))

pub fetch_next-write :
    (s : Session) → s.request_type ≡ write_request → fetch_next s ≡ (succeeded, s)
unfolding fetch_next should_fetch_data combinators
fetch_next-write s h = ground arith
