-- ===== src/Transfer/Put.antt =====
-- A write request between the client of tftp/src/client/client.c and a session of
-- tftp/src/server/session.c: which file the server ends up with.
use mathlib.Core.List.{Memᴰ}
use mathlib.Core.Option.{some_inj}
use file_transfer_over_udp.Prelude.{
  ℕ, ◌+◌, ◌*◌, ◌<◌, ◌≤◌, ◌≡◌, refl, ap, sym, ◌∙◌, false, some, List, [], ◌∷◌, ◌++◌, map, length,
  drop, arith, length-take, ◌-◌,
}
use file_transfer_over_udp.Prelude.Words.{Bytes, u16, u16_mod}
use file_transfer_over_udp.Inet.{Address}
use file_transfer_over_udp.Wire.{unknown_transfer_id, get_opcode, block, error, word_at}
use file_transfer_over_udp.Wire.Packet.{data_packet_init, error_packet_info, error_packet}
use file_transfer_over_udp.Client.{Request, Effect, packet_sent, bytes_written}
use file_transfer_over_udp.Client.Receive.InOrder.{blocks_in_order}
use file_transfer_over_udp.Client.Send.{Turn, send_file}
use file_transfer_over_udp.Client.Send.Chunks.{
  chunk, rest_of, IsFaithful, block_sent, stranger_told, AreFaithful,
}
use file_transfer_over_udp.Client.Send.Invariant.{max_blocks}
use file_transfer_over_udp.Client.Send.Transfer.{send_file-AreFaithful}
use file_transfer_over_udp.Server.Session.{Session, Action, sent, written}
use file_transfer_over_udp.Server.Session.Start.{ServerInfo}
use file_transfer_over_udp.Server.Session.Handle.{run}
use file_transfer_over_udp.Server.Session.InOrder.{
  data_event, visible, receive_in_order, IsReceiving,
}
use file_transfer_over_udp.Server.Session.InOrder.Delivery.{AreBlocks, run-receive_in_order}
use file_transfer_over_udp.Transfer.Prefix.{AreChunks, IsBeginning, blocks_in_order-IsBeginning}

-- The network brings only DATA packets that the client has sent to the server, in any order, and each
-- any number of times or never.
abbrev pub ArriveFrom : Address → List Effect → List (ℕ × Bytes) → Type 0
ArriveFrom server effects [] = Unit
ArriveFrom server effects ((n, payload) ∷ l) =
    (n < u16_mod)
    × Memᴰ (packet_sent server (data_packet_init n ++ payload)) effects
    × ArriveFrom server effects l

abbrev packet_of : Effect → Bytes
packet_of (packet_sent address packet) = packet
packet_of (bytes_written payload) = []

data_packet_number :
    (n : ℕ) (payload : Bytes) → n < u16_mod → word_at (data_packet_init n ++ payload) 2 ≡ n
unfolding data_packet_init
data_packet_number n payload h = ground arith

data_packet_payload : (n : ℕ) (payload : Bytes) → drop 4 (data_packet_init n ++ payload) ≡ payload
unfolding data_packet_init
data_packet_payload n payload = refl

get_opcode-data_packet_init :
    (n : ℕ) (payload : Bytes) → get_opcode (data_packet_init n ++ payload) ≡ block
unfolding data_packet_init get_opcode
get_opcode-data_packet_init n payload = refl

get_opcode-error_packet_info :
    (packet : Bytes)
    → error_packet_info unknown_transfer_id ≡ some packet
    → get_opcode packet ≡ error
unfolding error_packet_info error_packet get_opcode
get_opcode-error_packet_info packet e = sym (ap get_opcode (some_inj.0 e))

-- What a DATA packet among the faithful packets of a client carries.
faithful_chunk :
    (server address : Address) (size n : ℕ) (content payload : Bytes) (e : Effect)
    → IsFaithful server size content e
    → packet_sent address (data_packet_init n ++ payload) ≡ e
    → n < u16_mod
    → (0 < n) × (payload ≡ chunk size n content)
faithful_chunk server address size n content payload e (block_sent m pos small) same h =
    let packets = ap packet_of same in
    let number =
      sym (data_packet_number n payload h)
      ∙ ap (λ p. word_at p 2) packets
      ∙ data_packet_number m (chunk size m content) small in
    (
      omega (arith, number, pos),
      sym (data_packet_payload n payload)
          ∙ ap (drop 4) packets
          ∙ data_packet_payload m (chunk size m content)
          ∙ ap (λ k. chunk size k content) (sym number),
    )
faithful_chunk server address size n content payload e (stranger_told a packet err) same h =
    let is_block =
      sym (ap get_opcode (ap packet_of same)) ∙ get_opcode-data_packet_init n payload in
    let is_error = get_opcode-error_packet_info packet err in
    let contra : ⊥ = ground (arith, is_block, is_error) in absurd contra

Memᴰ-IsFaithful :
    (server : Address) (size : ℕ) (content : Bytes) (l : List Effect) (e : Effect)
    → AreFaithful server size content l
    → Memᴰ e l
    → (x : Effect) × IsFaithful server size content x × (e ≡ x)
Memᴰ-IsFaithful server size content [] e w m = elim m [ ]
Memᴰ-IsFaithful server size content (x ∷ l) e w (Memᴰ.head same) = (x, w.0, same)
Memᴰ-IsFaithful server size content (x ∷ l) e w (Memᴰ.tail m) =
    Memᴰ-IsFaithful server size content l e w.1 m

length-chunk : (size n : ℕ) (content : Bytes) → length (chunk size n content) ≤ size
length-chunk size n content = omega (arith, length-take size (rest_of size (n - 1) content))

ArriveFrom-chunks :
    (server : Address) (size room : ℕ) (content : Bytes) (effects : List Effect)
    (l : List (ℕ × Bytes))
    → size + 4 ≤ room
    → AreFaithful server size content effects
    → ArriveFrom server effects l
    → AreChunks size content l × AreBlocks room l
ArriveFrom-chunks server size room content effects [] fits w h = (tt, tt)
ArriveFrom-chunks server size room content effects ((n, payload) ∷ l) fits w h =
    let (x, faithful, same) = Memᴰ-IsFaithful server size content effects _ w h.1 in
    let is_chunk = faithful_chunk server server size n content payload x faithful same h.0 in
    let rest = ArriveFrom-chunks server size room content effects l fits w h.2 in
    let short = length-chunk size n content in
    let same_length = ap length is_chunk.1 in
    ((is_chunk.0, is_chunk.1, rest.0), (h.0, omega (arith, fits, short, same_length), rest.1))

-- The blocks that a session writes to its file, in order.
abbrev pub written_blocks : List Action → List Bytes
written_blocks [] = []
written_blocks (written payload ∷ rest) = payload ∷ written_blocks rest
written_blocks (_ ∷ rest) = written_blocks rest

written_blocks-append :
    (a b : List Action) → written_blocks (a ++ b) ≡ written_blocks a ++ written_blocks b
written_blocks-append [] b = refl
written_blocks-append (written payload ∷ a) b = ap (◌∷◌ payload) (written_blocks-append a b)
written_blocks-append (_ ∷ a) b = written_blocks-append a b

written_blocks-visible : (a : List Action) → written_blocks (visible a) ≡ written_blocks a
written_blocks-visible [] = refl
written_blocks-visible (written payload ∷ a) = ap (◌∷◌ payload) (written_blocks-visible a)
written_blocks-visible (sent address packet ∷ a) = written_blocks-visible a
written_blocks-visible (_ ∷ a) = written_blocks-visible a

-- The server takes the same blocks as the client does when it receives.
written_blocks-receive_in_order :
    (client : Address) (size expected : ℕ) (l : List (ℕ × Bytes))
    → written_blocks (receive_in_order client size expected l) ≡ blocks_in_order size expected l
unfolding receive_in_order blocks_in_order
written_blocks-receive_in_order client size expected [] = refl
written_blocks-receive_in_order client size expected ((n, payload) ∷ l) =
    let more = written_blocks-receive_in_order client size (u16 (expected + 1)) l in
    let ignoring = written_blocks-receive_in_order client size expected l in
    ground (arith, more, ignoring)

-- When a client sends a file of fewer than 65534 blocks with a window of at least one and at most 65535
-- blocks, and a session that expects block 1 of that size and has room for it in its buffer gets DATA packets that the client has sent,
-- in any order, repeated or lost, then the session adds to its file a beginning of the file of the
-- client, and the whole of it once it has written a short block, if the file of the session is open and none of its
-- system calls fails.
pub send_file-run :
    (memory : ℕ → Bytes) (buffer content : Bytes) (turns : List Turn) (r : Request)
    (info : ServerInfo) (client : Address) (l : List (ℕ × Bytes)) (s : Session)
    → r.effects ≡ []
    → 0 < r.window_size
    → r.window_size < u16_mod
    → length content < max_blocks * r.block_size
    → ArriveFrom r.server_addr (send_file memory buffer content turns r).1.request.effects l
    → IsReceiving client s
    → s.should_close ≡ false
    → s.expected_sequence_number ≡ 1
    → s.block_size ≡ r.block_size
    → r.block_size + 4 ≤ s.recv_buffer_size
    → (blocks : List Bytes) × (written_blocks (run info (map (data_event client) l) s).1.actions
        ≡ written_blocks s.actions ++ blocks)
      × IsBeginning r.block_size content blocks
send_file-run memory buffer content turns r info client l s fresh pos hw bound arrive w going first
      same fits =
    let faithful = (send_file-AreFaithful memory buffer content turns r fresh pos hw bound).1 in
    let chunks =
      ArriveFrom-chunks r.server_addr r.block_size s.recv_buffer_size content _ l fits faithful
        arrive in
    let delivered = run-receive_in_order info client l s w going chunks.1 in
    let taken = blocks_in_order r.block_size 1 l in
    (
      taken,
      sym (written_blocks-visible (run info (map (data_event client) l) s).1.actions)
          ∙ ap written_blocks delivered
          ∙ written_blocks-append (visible s.actions) _
          ∙ ap
              (◌++ written_blocks
                (receive_in_order client s.block_size s.expected_sequence_number l))
              (written_blocks-visible s.actions)
          ∙ ap (written_blocks s.actions ++◌) (
              written_blocks-receive_in_order client s.block_size s.expected_sequence_number l
              ∙ ap (λ k. blocks_in_order k s.expected_sequence_number l) same
              ∙ ap (λ k. blocks_in_order r.block_size k l) first),
      blocks_in_order-IsBeginning r.block_size content 1 l (omega arith) (omega arith) chunks.0,
    )
