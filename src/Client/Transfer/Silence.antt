-- ===== src/Client/Transfer/Silence.antt =====
-- A server that does not answer: how often the client asks, and how it ends. Without client options the
-- timeout of the socket is 0, and `recvfrom` never times out.
use mathlib.Core.List.{append-nil, append_assoc}
use file_transfer_over_udp.Prelude.{
  ℕ, zero, suc, ◌+◌, ◌<◌, ◌≡◌, refl, true, false, ◌||◌, inl, inr, Option-cases, some, List, [], ◌∷◌,
  ◌++◌, ◌==◌, if◌then◌else◌, arith,
}
use file_transfer_over_udp.Prelude.Words.{Bytes}
use file_transfer_over_udp.Inet.{Address}
use file_transfer_over_udp.Wire.{Opcode, rrq, wrq, Mode, get_opcode}
use file_transfer_over_udp.Wire.Options.{Options, kinds}
use file_transfer_over_udp.Prelude.Text.{cstring}
use file_transfer_over_udp.Wire.Request.{request_packet_init, append_options, name_and_mode}
use file_transfer_over_udp.Client.{
  Request, packet_sent, answered, send_to, packet_buffer_size, retransmit_last_packet_sent,
}
use file_transfer_over_udp.Client.Choice.{ClientOptions}
use file_transfer_over_udp.Client.Receive.{
  Arrival, timed_out, Receiver, Progress, failed, on_arrival, receive_file,
}
use file_transfer_over_udp.Client.Send.{Turn}
use file_transfer_over_udp.Client.Transfer.{
  send_rrq_packet, send_request_packet, send_request, check_size, handle_get_request, request_put,
  handle_put_request, request_init, tftp_client_read, tftp_client_write,
}

-- Nothing arrives, `n` times.
abbrev pub timeouts : ℕ → List Arrival
timeouts zero = []
timeouts (suc n) = timed_out ∷ timeouts n

abbrev pub repeated {ℓ} : {A : Type ℓ} → ℕ → A → List A
repeated zero x = []
repeated (suc n) x = x ∷ repeated n x

abbrev has_sent : Request → Bytes → Request
has_sent r packet = record r {
  effects = r.effects ++ packet_sent r.server_addr packet ∷ [];
  answers = [];
}

send_request_lem :
    (opcode : Opcode) (filename packet : Bytes) (mode : Mode) (r : Request)
    → r.answers ≡ []
    → request_packet_init opcode filename mode r.options ≡ some packet
    → send_request opcode filename mode r
      ≡ (true, record (has_sent r packet) { last_packet_sent = packet })
unfolding send_request send_request_packet send_rrq_packet send_to
send_request_lem opcode filename packet mode r a e = ground (arith, a, e)

request_put_again :
    (filename packet : Bytes) (mode : Mode) (n k : ℕ) (r : Request)
    → r.answers ≡ []
    → request_packet_init wrq filename mode r.options ≡ some packet
    → request_put filename mode (timeouts (suc n)) k r ≡ (
        let s = record (has_sent r packet) { last_packet_sent = packet } in
        if k == r.retries
        then (failed, record s { server_may_not_support_options = s.use_options }, [])
        else request_put filename mode (timeouts n) (k + 1) s)
unfolding request_put
request_put_again filename packet mode n k r a e =
    let sent = send_request_lem wrq filename packet mode r a e in ground (arith, sent)

-- The end of a request that nobody answers.
abbrev HasGivenUp : ℕ → Bytes → Request → Progress → Request → Type 0
HasGivenUp times packet r progress t =
    (progress ≡ failed)
    × (t.effects ≡ r.effects ++ repeated times (packet_sent r.server_addr packet))
    × (t.server_may_not_support_options ≡ r.use_options)

request_put-timeouts :
    (filename packet : Bytes) (mode : Mode) (left n k : ℕ) (r : Request)
    → r.answers ≡ []
    → request_packet_init wrq filename mode r.options ≡ some packet
    → k + left ≡ r.retries
    → left < n
    → let t = request_put filename mode (timeouts n) k r in HasGivenUp (suc left) packet r t.0 t.1
request_put-timeouts filename packet mode left zero k r a e more enough = elim enough [ ]
request_put-timeouts filename packet mode zero (suc n) k r a e more enough =
    let again = request_put_again filename packet mode n k r a e in ground (arith, again, more)
request_put-timeouts filename packet mode (suc left) (suc n) k r a e more enough =
    let again = request_put_again filename packet mode n k r a e in
    let s = record (has_sent r packet) { last_packet_sent = packet } in
    let later =
      request_put-timeouts filename packet mode left n (k + 1) s refl e (omega (arith, more))
        (omega (arith, enough)) in
    let joined =
      append_assoc r.effects (packet_sent r.server_addr packet ∷ [])
        (repeated (suc left) (packet_sent r.server_addr packet)) in
    ground (arith, again, more, later, joined)

-- A client that is given options and asks to write a file and gets no answer sends its request once and again for each of
-- its retries, if the system takes what is sent; then it fails, and says that the server may not
-- support options exactly if it asked for some.
pub tftp_client_write-timeouts :
    (retries : ℕ) (filename packet : Bytes) (mode : Mode) (options : ClientOptions)
    (address : Address) (memory : ℕ → Bytes) (recv_buffer source : Bytes) (n : ℕ)
    (turns : List Turn)
    → let r = request_init false retries (some options) address [] in
      request_packet_init wrq filename mode r.options ≡ some packet
      → retries < n
      → let t =
          tftp_client_write retries filename mode
            (some options)
            address
            []
            memory
            recv_buffer
            source
            (timeouts n)
            turns in
        (t.progress ≡ failed)
        × (t.request.effects ≡ repeated (suc retries) (packet_sent address packet))
        × (t.request.server_may_not_support_options
            ≡ (request_init false retries (some options) address []).use_options)
unfolding tftp_client_write handle_put_request request_init
tftp_client_write-timeouts retries filename packet mode options address memory recv_buffer source n
      turns e enough =
    let r = request_init false retries (some options) address [] in
    let u = record (answered r) { packet_recv_buffer_size = 512 } in
    let given_up =
      request_put-timeouts filename packet mode retries n 0 u refl e (omega arith) enough in
    ground (arith, given_up)

abbrev again_sent : Receiver → Receiver
again_sent v = record v {
  request = has_sent v.request v.request.last_packet_sent;
  retransmissions = v.retransmissions + 1;
}

receive_file_again :
    (n : ℕ) (v : Receiver)
    → v.request.answers ≡ []
    → get_opcode v.request.last_packet_sent ≡ rrq
    → v.is_first_receive ≡ true
    → receive_file (timeouts (suc n)) v ≡ (
        if v.retransmissions == v.request.retries
        then (
          failed,
          record v {
            request = record v.request {
              server_may_not_support_options =
                  v.request.server_may_not_support_options || v.request.use_options;
            };
          },
        )
        else receive_file (timeouts n) (again_sent v))
unfolding receive_file on_arrival retransmit_last_packet_sent send_to
receive_file_again n v a o f = ground (arith, a, o, f)

receive_file-timeouts :
    (left n : ℕ) (v : Receiver)
    → v.request.answers ≡ []
    → get_opcode v.request.last_packet_sent ≡ rrq
    → v.is_first_receive ≡ true
    → v.request.server_may_not_support_options ≡ false
    → v.retransmissions + left ≡ v.request.retries
    → left < n
    → let t = receive_file (timeouts n) v in
      HasGivenUp left v.request.last_packet_sent v.request t.0 t.1.request
receive_file-timeouts left zero v a o f g more enough = elim enough [ ]
receive_file-timeouts zero (suc n) v a o f g more enough =
    let again = receive_file_again n v a o f in
    let none_added = append-nil v.request.effects in ground (arith, again, more, g, none_added)
receive_file-timeouts (suc left) (suc n) v a o f g more enough =
    let again = receive_file_again n v a o f in
    let later =
      receive_file-timeouts left n (again_sent v) refl o f g (omega (arith, more))
        (omega (arith, enough)) in
    let sending = packet_sent v.request.server_addr v.request.last_packet_sent in
    let joined = append_assoc v.request.effects (sending ∷ []) (repeated left sending) in
    ground (arith, again, more, later, joined)

get_opcode-request_packet_init :
    (filename packet : Bytes) (mode : Mode) (options : Options)
    → request_packet_init rrq filename mode options ≡ some packet
    → get_opcode packet ≡ rrq
unfolding request_packet_init get_opcode
get_opcode-request_packet_init filename packet mode options e =
    let padding = append_options options kinds (name_and_mode (cstring filename) mode) in
    elim (Option-cases padding) [
      | inl f ↦ ground (arith, e, f)
      | inr (bytes, f) ↦ ground (arith, e, f)
    ]

-- A client that is given options and asks to read a file and gets no answer sends its request once and again for each of its
-- retries, if the system takes what is sent; then it fails, and says that the server may not support
-- options exactly if it asked for some.
pub tftp_client_read-timeouts :
    (retries : ℕ) (filename packet : Bytes) (mode : Mode) (options : ClientOptions)
    (address : Address) (n : ℕ)
    → let r = request_init true retries (some options) address [] in
      request_packet_init rrq filename mode r.options ≡ some packet
      → retries < n
      → let t = tftp_client_read retries filename mode (some options) address [] (timeouts n) in
        (t.progress ≡ failed)
        × (t.request.effects ≡ repeated (suc retries) (packet_sent address packet))
        × (t.request.server_may_not_support_options
            ≡ (request_init true retries (some options) address []).use_options)
unfolding tftp_client_read handle_get_request check_size request_init
tftp_client_read-timeouts retries filename packet mode options address n e enough =
    let r = request_init true retries (some options) address [] in
    let asked = send_request_lem rrq filename packet mode (answered r) refl e in
    let s = record (has_sent (answered r) packet) { last_packet_sent = packet } in
    let v : Receiver = record {
      request = record s { packet_recv_buffer_size = packet_buffer_size s.block_size };
      is_first_receive = true;
      expected_sequence_number = 1;
      retransmissions = 0;
    } in
    let is_rrq = get_opcode-request_packet_init filename packet mode r.options e in
    let given_up = receive_file-timeouts retries n v refl is_rrq refl refl (omega arith) enough in
    ground (arith, asked, given_up)
