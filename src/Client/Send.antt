-- ===== src/Client/Send.antt =====
-- `send_file` of tftp/src/client/client.c: the file of a write request, sent through a Go-Back-N window.
pub mod Acknowledged
pub mod Chunks
pub mod Complete
pub mod Faithful
pub mod GiveUp
pub mod Invariant
pub mod Resend
pub mod Resent
pub mod Silence
pub mod Transfer
pub mod Wrapped
use file_transfer_over_udp.Prelude.{
  ℕ, zero, suc, ◌+◌, ◌%◌, Bool, false, not, ◌&&◌, ◌||◌, List, [], ◌∷◌, ◌++◌, length, take, drop,
  ltb, leb, ◌==◌, if◌then◌else◌,
}
use file_transfer_over_udp.Prelude.Words.{Bytes, u8, u16}
use file_transfer_over_udp.Inet.{sockaddr_equals}
use file_transfer_over_udp.Wire.{ack, get_opcode, word_at}
use file_transfer_over_udp.Wire.Packet.{data_packet_init}
use file_transfer_over_udp.Window.{has_room, is_ack_in_window, slot_index}
use file_transfer_over_udp.Client.{Request, succeeds, answered, send_to, handle_unexpected_peer}
use file_transfer_over_udp.Client.Receive.{
  Arrival, timed_out, receive_failed, datagram, Progress, going, complete, failed, undefined,
}

-- The variables of `send_file`. The file has `source` left; `data_packets` is the memory of each slot
-- of the window, and `recv_buffer` is what `packet_recv_buffer` holds, from earlier packets too.
pub record Sender : Type 0 where
  pub request : Request
  pub source : Bytes
  pub data_packets : ℕ → Bytes
  pub recv_buffer : Bytes
  pub last_packet_size : ℕ
  pub window_begin : ℕ
  pub next_sequence_number : ℕ
  pub end_of_file : Bool
  pub retransmissions : ℕ

-- What the clock and the socket say in one turn of the loop: no time remains before the timeout, or
-- the `recvfrom` that the client waits in ends.
pub data Turn : Type 0 where
  no_time_left : Turn
  waited : Arrival → Turn

-- What is written over the beginning of a piece of memory.
unfoldable pub overwrite : Bytes → Bytes → Bytes
overwrite bytes memory = bytes ++ drop (length bytes) memory

unfoldable pub store : ℕ → Bytes → (ℕ → Bytes) → ℕ → Bytes
store slot memory packets i = if i == slot then memory else packets i

-- `fread` of a block into the slot of the next block, the header of the packet, and its `sendto`.
unfoldable pub send_block : Sender → Progress × Sender
send_block v =
    let r = v.request in
    let payload = take r.block_size v.source in
    let slot = slot_index r.window_size v.next_sequence_number in
    let packet =
      overwrite (data_packet_init v.next_sequence_number ++ payload) (v.data_packets slot) in
    let size = 4 + length payload in
    let read = record v {
      request = answered r;
      source = drop r.block_size v.source;
      data_packets = store slot packet v.data_packets;
      last_packet_size = size;
      end_of_file = v.end_of_file || ltb (length payload) r.block_size;
    } in
    let (sent, s) = send_to r.server_addr (take size packet) (answered r) in
    let next = record read {
      request = record s { file_bytes_transferred = s.file_bytes_transferred + length payload };
      next_sequence_number = u16 (v.next_sequence_number + 1);
    } in
    if not (succeeds r.answers)
    then (failed, v)
    else if sent
    then (going, next)
    else (failed, record read { request = s })

-- The sending phase. A remainder by a window size of 0 is undefined.
unfoldable pub fill_window : ℕ → Sender → Progress × Sender
fill_window zero v = (going, v)
fill_window (suc fuel) v =
    let (progress, w) = send_block v in
    let rest = fill_window fuel w in
    if not v.end_of_file && has_room v.window_begin v.request.window_size v.next_sequence_number
    then (if v.request.window_size == 0
        then (undefined, v)
        else elim progress [ going ↦ rest | other ↦ (other, w) ])
    else (going, v)

-- `(i - 1) % window_size` in an `int`, kept in 16 bits: for block 0 it is the remainder of -1.
unfoldable pub packet_index : ℕ → ℕ → ℕ
packet_index window_size zero = if window_size == 1 then 0 else 65535
packet_index window_size (suc i) = i % window_size

-- The size of block `i`; the comparison is one of numbers of type `int`, so that it is false for every
-- block when the next block is 0.
unfoldable pub packet_size : ℕ → Sender → ℕ
packet_size i v =
    if i + 1 == v.next_sequence_number then v.last_packet_size else 4 + v.request.block_size

-- The packets in flight, sent again. A slot behind the window, or a short block in a memory that is
-- read up to `block_size`, is not excluded.
unfoldable pub resend_window : ℕ → ℕ → Sender → Progress × Sender
resend_window zero i v = (undefined, v)
resend_window (suc fuel) i v =
    let slot = packet_index v.request.window_size i in
    let (sent, r) =
      send_to v.request.server_addr (take (packet_size i v) (v.data_packets slot)) v.request in
    let w = record v { request = r } in
    let rest = resend_window fuel (u16 (i + 1)) w in
    if not (is_ack_in_window v.window_begin v.next_sequence_number i)
    then (going, v)
    else if leb v.request.window_size slot
    then (undefined, v)
    else if sent
    then rest
    else (failed, w)

-- More rounds than there are block numbers: a loop that is still running never ends.
abbrev pub rounds : ℕ
rounds = 65537

-- A timeout. The counter has eight bits.
unfoldable pub on_timeout : Sender → Progress × Sender
on_timeout v =
    if ltb v.request.retries v.retransmissions
    then (failed, v)
    else resend_window rounds v.window_begin
        (record v { retransmissions = u8 (v.retransmissions + 1) })

-- The case of an ACK; one that is not in the window is ignored. The last comparison is again one of
-- numbers of type `int`.
unfoldable pub on_ack : Sender → Progress × Sender
on_ack v =
    let block_number = word_at v.recv_buffer 2 in
    let w = record v { window_begin = u16 (block_number + 1); retransmissions = 0 } in
    if not (is_ack_in_window v.window_begin v.next_sequence_number block_number)
    then (going, v)
    else if v.end_of_file && block_number + 1 == v.next_sequence_number
    then (complete, w)
    else (going, w)

-- A packet of the server, by its opcode.
unfoldable pub on_reply : Sender → Progress × Sender
on_reply v = elim (get_opcode v.recv_buffer) [ ack ↦ on_ack v | _ ↦ (failed, v) ]

-- The receiving phase, once there is time left: `setsockopt`, then `recvfrom`.
unfoldable pub on_wait : Arrival → Sender → Progress × Sender
on_wait a v =
    let w = record v { request = answered v.request } in
    if succeeds v.request.answers
    then (elim a [
      | timed_out ↦ on_timeout w
      | receive_failed ↦ (failed, w)
      | datagram address packet ↦
          let x = record w {
            recv_buffer = overwrite (take w.request.packet_recv_buffer_size packet) w.recv_buffer;
          } in
          if sockaddr_equals x.request.server_addr address
          then on_reply x
          else (going, record x { request = handle_unexpected_peer address x.request })
    ])
    else (failed, w)

-- One turn of the loop: both phases.
unfoldable pub on_turn : Turn → Sender → Progress × Sender
on_turn turn v =
    let (progress, w) = fill_window v.request.window_size v in
    let received : Progress × Sender = elim turn [
      | no_time_left ↦ on_timeout w
      | waited a ↦ on_wait a w
    ] in
    elim progress [ going ↦ received | other ↦ (other, w) ]

-- `send_file` on what happens, up to its end or to the end of what happens.
unfoldable pub send_turns : List Turn → Sender → Progress × Sender
send_turns [] v = (going, v)
send_turns (turn ∷ rest) v =
    let (progress, w) = on_turn turn v in
    let more = send_turns rest w in elim progress [ going ↦ more | other ↦ (other, w) ]

-- The beginning of `send_file`, with its `malloc`; the memory that it gives has any contents.
unfoldable pub send_file : (ℕ → Bytes) → Bytes → Bytes → List Turn → Request → Progress × Sender
send_file memory buffer source turns r =
    let start : Sender = record {
      request = answered r;
      source = source;
      data_packets = memory;
      recv_buffer = buffer;
      last_packet_size = 0;
      window_begin = 1;
      next_sequence_number = 1;
      end_of_file = false;
      retransmissions = 0;
    } in
    if succeeds r.answers then send_turns turns start else (failed, start)
