-- ===== src/Client/Receive/InOrder/Delivery.antt =====
-- A read request of the client delivers its file: `receive_file` on the DATA packets of a server.
use mathlib.Core.List.{append-nil, append_assoc}
use file_transfer_over_udp.Prelude.{
  ℕ, ◌+◌, ◌≤◌, ◌<◌, ◌≡◌, refl, sym, ap, ◌∙◌, Bool, true, false, List, [], ◌∷◌, ◌++◌, map, length,
  ltb, ◌==◌, if◌then◌else◌,
}
use file_transfer_over_udp.Prelude.Words.{Bytes, u16, u16_mod}
use file_transfer_over_udp.Inet.{Address}
use file_transfer_over_udp.Wire.Packet.{encode_ack}
use file_transfer_over_udp.Client.{Effect, packet_sent, bytes_written}
use file_transfer_over_udp.Client.Receive.{
  Arrival, Receiver, Progress, going, complete, receive_file,
}
use file_transfer_over_udp.Client.Receive.InOrder.{
  data_arrival, stored, stored-append, blocks_in_order, IsTransferring, taken, resent, on_block_lem,
  get_opcode-encode_ack, on_arrival-data,
}

IsTransferring-taken :
    (server : Address) (size room n : ℕ) (payload : Bytes) (v : Receiver)
    → IsTransferring server size room v
    → IsTransferring server size room (taken n payload v)
IsTransferring-taken server size room n payload v w = record {
  is_later = refl;
  is_server = w.is_server;
  is_known = w.is_known;
  is_ack = get_opcode-encode_ack n;
  no_failure = refl;
  has_size = w.has_size;
  has_room = w.has_room;
}

IsTransferring-resent :
    (server : Address) (size room : ℕ) (v : Receiver)
    → IsTransferring server size room v
    → IsTransferring server size room (resent v)
IsTransferring-resent server size room v w = record {
  is_later = refl;
  is_server = w.is_server;
  is_known = w.is_known;
  is_ack = w.is_ack;
  no_failure = refl;
  has_size = w.has_size;
  has_room = w.has_room;
}

IsTransferring-restarted :
    (server : Address) (size room : ℕ) (v : Receiver)
    → IsTransferring server size room v
    → IsTransferring server size room (record v { retransmissions = 0 })
IsTransferring-restarted server size room v w = record {
  is_later = w.is_later;
  is_server = w.is_server;
  is_known = w.is_known;
  is_ack = w.is_ack;
  no_failure = w.no_failure;
  has_size = w.has_size;
  has_room = w.has_room;
}

-- Block numbers of 16 bits, and packets that the buffer has room for.
abbrev pub AreBlocks : ℕ → List (ℕ × Bytes) → Type 0
AreBlocks room [] = Unit
AreBlocks room ((n, payload) ∷ l) = (n < u16_mod) × (4 + length payload ≤ room) × AreBlocks room l

abbrev go_on : List Arrival → Progress × Receiver → Progress × Receiver
go_on rest r = elim r.0 [ going ↦ receive_file rest r.1 | other ↦ (other, r.1) ]

stored-taken :
    (l : List Effect) (payload : Bytes) (server : Address) (packet : Bytes) (more : List Bytes)
    → stored ((l ++ bytes_written payload ∷ []) ++ packet_sent server packet ∷ []) ++ more
      ≡ stored l ++ payload ∷ more
stored-taken l payload server packet more =
    ap (λ x. stored x ++ more)
      (append_assoc l (bytes_written payload ∷ []) (packet_sent server packet ∷ []))
    ∙ ap (◌++ more) (stored-append l (bytes_written payload ∷ packet_sent server packet ∷ []))
    ∙ append_assoc (stored l) (payload ∷ []) more

stored-resent :
    (l : List Effect) (server : Address) (packet : Bytes)
    → stored (l ++ packet_sent server packet ∷ []) ≡ stored l
stored-resent l server packet =
    stored-append l (packet_sent server packet ∷ []) ∙ append-nil (stored l)

-- One packet, by whether it is expected and short.
stored-step :
    (expected short : Bool) (rest : List Arrival) (t r : Receiver) (before : List Bytes)
    (payload : Bytes) (more ignoring : List Bytes)
    → stored t.request.effects ≡ before ++ payload ∷ []
    → stored (receive_file rest t).1.request.effects ≡ before ++ payload ∷ more
    → stored (receive_file rest r).1.request.effects ≡ before ++ ignoring
    → stored
        (go_on rest (
          if expected
          then (if short then complete else going, t)
          else (going, r))).1.request.effects
      ≡ before ++ (if expected then payload ∷ (if short then [] else more) else ignoring)
stored-step true true rest t r before payload more ignoring last next again = last
stored-step true false rest t r before payload more ignoring last next again = next
stored-step false short rest t r before payload more ignoring last next again = again

-- Whatever DATA packets with 16-bit block numbers, that fit the buffer, the server sends and in whatever
-- order, behind the first packet and as long as no call fails, the client stores exactly the blocks
-- that a receiver takes which waits for each block in turn and stops at the first short one.
pub receive_file-blocks_in_order :
    (server : Address) (size room : ℕ) (l : List (ℕ × Bytes)) (v : Receiver)
    → IsTransferring server size room v
    → AreBlocks room l
    → stored (receive_file (map (data_arrival server) l) v).1.request.effects
      ≡ stored v.request.effects ++ blocks_in_order size v.expected_sequence_number l
unfolding receive_file blocks_in_order
receive_file-blocks_in_order server size room [] v w h = sym (append-nil (stored v.request.effects))
receive_file-blocks_in_order server size room ((n, payload) ∷ l) v w h =
    let u = record v { retransmissions = 0 } in
    let x = IsTransferring-restarted server size room v w in
    let on_taken =
      receive_file-blocks_in_order server size room l (taken n payload u)
        (IsTransferring-taken server size room n payload u x) h.2 in
    let on_resent =
      receive_file-blocks_in_order server size room l (resent u)
        (IsTransferring-resent server size room u x) h.2 in
    let address = v.request.server_addr in
    let effects = v.request.effects in
    let more = blocks_in_order size (u16 (v.expected_sequence_number + 1)) l in
    let ignoring = blocks_in_order size v.expected_sequence_number l in
    let last = stored-taken effects payload address (encode_ack n) [] in
    let next = stored-taken effects payload address (encode_ack n) more in
    let again = stored-resent effects address v.request.last_packet_sent in
    ap (λ r. stored (go_on (map (data_arrival server) l) r).1.request.effects)
      (on_arrival-data server size room n payload v h.0 h.1 w
        ∙ on_block_lem size n payload u w.is_ack w.no_failure w.has_size)
    ∙ stored-step (n == v.expected_sequence_number) (ltb (length payload) size)
        (map (data_arrival server) l) (taken n payload u) (resent u) (stored effects) payload more
        ignoring (sym (append-nil (stored (taken n payload u).request.effects)) ∙ last)
        (on_taken ∙ next) (on_resent ∙ ap (◌++ ignoring) again)
