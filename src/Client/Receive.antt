-- ===== src/Client/Receive.antt =====
-- `receive_file` and `receive_packet` of tftp/src/client/client.c.
pub mod InOrder
use file_transfer_over_udp.Prelude.{
  ℕ, ◌+◌, ◌-◌, Bool, true, false, not, ◌&&◌, ◌||◌, Option, none, some, List, [], ◌∷◌, ◌++◌, length,
  take, drop, ltb, leb, ◌==◌, if◌then◌else◌,
}
use file_transfer_over_udp.Prelude.Words.{Bytes, u16}
use file_transfer_over_udp.Wire.{
  Opcode, oack, block, error, disk_full, not_defined, invalid_options, get_opcode, word_at,
  default_blksize,
}
use file_transfer_over_udp.Wire.Options.{Options, get, read_type}
use file_transfer_over_udp.Client.Oack.{handle_oack_packet}
use file_transfer_over_udp.Inet.{Address, sockaddr_equals}
use file_transfer_over_udp.Client.{
  Request, bytes_written, succeeds, answered, send_ack, send_error, retransmit_last_packet_sent,
  handle_unexpected_peer,
}

-- How `recvfrom` ends: no packet within the timeout, an error, or a packet from an address.
pub data Arrival : Type 0 where
  timed_out receive_failed : Arrival
  datagram : Address → Bytes → Arrival

-- The variables of `receive_file`, and the counter of the `receive_packet` that runs.
pub record Receiver : Type 0 where
  pub request : Request
  pub is_first_receive : Bool
  pub expected_sequence_number : ℕ
  pub retransmissions : ℕ

-- The transfer goes on, is complete, fails, or runs into undefined behaviour.
pub data Progress : Type 0 where
  going complete failed undefined : Progress

-- A DATA packet that is not preceded by an OACK puts the options back to their defaults.
unfoldable pub discard_options : Request → Request
discard_options r = record r {
  use_options = false;
  window_size = 1;
  block_size = default_blksize;
  timeout_s = 2;
  use_adaptive_timeout = false;
  use_tsize = false;
}

-- `fwrite` of a block; after a failure the server is told if the disk is full, which is a second
-- answer of the system.
unfoldable pub write_block : Bytes → Request → Bool × Request
write_block payload r =
    let s = answered r in
    if succeeds r.answers
    then (
      true,
      record s {
        effects = s.effects ++ bytes_written payload ∷ [];
        file_bytes_transferred = s.file_bytes_transferred + length payload;
      },
    )
    else (false, if succeeds s.answers then send_error disk_full (answered s) else answered s)

-- The case of a DATA packet behind the treatment of the first one. A block that is not expected makes
-- the client send its last packet again.
unfoldable pub on_block : ℕ → Bytes → Receiver → Progress × Receiver
on_block block_number payload v =
    let (again, r) = retransmit_last_packet_sent v.request in
    let (stored, s) = write_block payload v.request in
    let (acked, t) = send_ack block_number s in
    let next = record v {
      request = t;
      is_first_receive = false;
      expected_sequence_number = u16 (v.expected_sequence_number + 1);
    } in
    if not (block_number == v.expected_sequence_number)
    then (if again
        then (going, record v { request = r; is_first_receive = false })
        else (failed, record v { request = r }))
    else if not stored
    then (failed, record v { request = s })
    else if not acked
    then (failed, record v { request = t })
    else (if ltb (length payload) t.block_size then complete else going, next)

-- The case of a DATA packet.
unfoldable pub on_data : Bytes → Receiver → Progress × Receiver
on_data packet v =
    let n = word_at packet 2 in
    let listed = v.request.use_options && (get v.request.options read_type).is_active in
    let refused = record (send_error invalid_options (record v.request { use_options = false })) {
      server_may_not_support_options = true;
    } in
    let plain = record v { request = discard_options v.request } in
    if not v.is_first_receive
    then on_block n (drop 4 packet) v
    else if listed
    then (failed, record v { request = refused })
    else on_block n (drop 4 packet) plain

-- The case of an OACK packet; one that does not come first is ignored.
unfoldable pub on_oack : Bytes → Receiver → Progress × Receiver
on_oack packet v =
    let is_list_request = (get v.request.options read_type).is_active in
    let (accepted, r) = handle_oack_packet packet v.request in
    let (acked, s) = send_ack 0 r in
    if not v.is_first_receive
    then (going, v)
    else if not accepted
    then (failed, record v { request = r })
    else if is_list_request && not (get r.options read_type).is_active
    then (failed, record v { request = send_error invalid_options r })
    else if acked
    then (going, record v { request = s; is_first_receive = false })
    else (failed, record v { request = s })

-- A packet of the server, by its opcode. The size of the data of a DATA packet without a whole header
-- wraps, and the opcode of a packet of one byte is not in it: the behaviour is undefined.
unfoldable pub on_server_packet : Bytes → Receiver → Progress × Receiver
on_server_packet packet v =
    if ltb (length packet) 2 then (undefined, v) else elim (get_opcode packet) [
      | oack ↦ on_oack packet v
      | block ↦ if ltb (length packet) 4 then (undefined, v) else on_data packet v
      | error ↦ (
        failed,
        record v {
          request = record v.request {
            server_may_not_support_options = v.is_first_receive && v.request.use_options;
          };
        },
      )
      | _ ↦ (failed, v)
    ]

-- What `receive_packet` and the loop of `receive_file` do with the end of a `recvfrom`. A packet is cut
-- at the size of the buffer; the first one tells the address of the server.
unfoldable pub on_arrival : Arrival → Receiver → Progress × Receiver
on_arrival receive_failed v = (failed, v)
on_arrival timed_out v =
    let (again, r) = retransmit_last_packet_sent v.request in
    let lost = record v.request {
      server_may_not_support_options =
          v.request.server_may_not_support_options || v.is_first_receive && v.request.use_options;
    } in
    if v.retransmissions == v.request.retries
    then (failed, record v { request = lost })
    else if again
    then (going, record v { request = r; retransmissions = v.retransmissions + 1 })
    else (failed, record v { request = r })
on_arrival (datagram address packet) v =
    let received = take v.request.packet_recv_buffer_size packet in
    let known =
      if v.is_first_receive then record v.request { server_addr = address } else v.request in
    let w = record v { request = known; retransmissions = 0 } in
    if length received == 0
    then (failed, v)
    else if not (sockaddr_equals known.server_addr address)
    then (going, record w { request = handle_unexpected_peer address known })
    else on_server_packet received w

-- `receive_file` on what arrives, up to its end or to the end of what arrives.
unfoldable pub receive_file : List Arrival → Receiver → Progress × Receiver
receive_file [] v = (going, v)
receive_file (a ∷ rest) v =
    let (progress, w) = on_arrival a v in
    elim progress [ going ↦ receive_file rest w | other ↦ (other, w) ]
