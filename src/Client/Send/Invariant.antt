-- ===== src/Client/Send/Invariant.antt =====
-- The invariant of `send_file`, kept by each of its steps.
use native.Mathlib.Nat.{lt_of_mul-lt-mul_right, suc-mul, mod-eq_of_lt}
use native.Mathlib.Decide.{dec_lt}
use file_transfer_over_udp.Prelude.{
  ℕ, suc, ◌+◌, ◌-◌, ◌*◌, ◌≤◌, ◌<◌, ◌≡◌, ◌≢◌, ◌⊎◌, ap, sym, ◌∙◌, Bool, false, ◌||◌, inl, inr, ◌++◌,
  length, take, drop, ltb, arith, take-append, length-drop, length-take,
}
use file_transfer_over_udp.Prelude.Words.{Bytes, u16, u16_mod}
use file_transfer_over_udp.Inet.{Address}
use file_transfer_over_udp.Wire.Packet.{data_packet_init}
use file_transfer_over_udp.Window.{slot_index}
use file_transfer_over_udp.Window.Slots.{slot_index-ne}
use file_transfer_over_udp.Client.{Request}
use file_transfer_over_udp.Client.Send.{Sender, overwrite, store, packet_size}
use file_transfer_over_udp.Client.Send.Chunks.{
  rest_of, chunk, drop-rest_of_pred, IsSendingTo, IsSending,
}

length-data_packet :
    (n : ℕ) (payload : Bytes) → length (data_packet_init n ++ payload) ≡ 4 + length payload
unfolding data_packet_init
length-data_packet n payload = omega arith

pub take-overwrite :
    (n : ℕ) (payload memory : Bytes)
    → take (4 + length payload) (overwrite (data_packet_init n ++ payload) memory)
      ≡ data_packet_init n ++ payload
unfolding overwrite
take-overwrite n payload memory =
    let packet = data_packet_init n ++ payload in
    ap (λ k. take k (packet ++ drop (length packet) memory)) (sym (length-data_packet n payload))
    ∙ take-append packet (drop (length packet) memory)

store-same : (slot : ℕ) (m : Bytes) (packets : ℕ → Bytes) → store slot m packets slot ≡ m
unfolding store
store-same slot m packets = ground arith

store-other :
    (slot i : ℕ) (m : Bytes) (packets : ℕ → Bytes) → i ≢ slot → store slot m packets i ≡ packets i
unfolding store
store-other slot i m packets h = ground (arith, h)

-- A block in flight stays in its slot while the next one is stored.
store-in_flight :
    (window next i : ℕ) (m : Bytes) (packets : ℕ → Bytes)
    → 0 < i
    → i < next
    → next < u16_mod
    → next < i + window
    → window < u16_mod
    → store (slot_index window next) m packets (slot_index window i) ≡ packets (slot_index window i)
store-in_flight window next i m packets hi hn hw hv hb =
    let apart =
      slot_index-ne window i (next - i) (omega arith) (omega arith) (omega arith) hb
        (inr (hi, omega arith)) in
    store-other (slot_index window next) (slot_index window i) m packets
      (λ e. apart (ap (slot_index window) (omega arith) ∙ sym e))

-- The sender after a block, with the packet that has been put into its slot.
abbrev pub sent_block : Bytes → Request → Sender → Sender
sent_block memory s v = record v {
  request = record s {
    file_bytes_transferred = s.file_bytes_transferred + length (take v.request.block_size v.source);
  };
  source = drop v.request.block_size v.source;
  data_packets =
      store (slot_index v.request.window_size v.next_sequence_number) memory v.data_packets;
  last_packet_size = 4 + length (take v.request.block_size v.source);
  end_of_file =
      v.end_of_file || ltb (length (take v.request.block_size v.source)) v.request.block_size;
  next_sequence_number = u16 (v.next_sequence_number + 1);
}

packet_size-last :
    (i : ℕ) (v : Sender) → i + 1 ≡ v.next_sequence_number → packet_size i v ≡ v.last_packet_size
unfolding packet_size
packet_size-last i v h = ground (arith, h)

packet_size-full :
    (i size : ℕ) (v : Sender)
    → i + 1 < v.next_sequence_number ⊎ (v.last_packet_size ≡ 4 + size)
    → v.request.block_size ≡ size
    → packet_size i v ≡ 4 + size
unfolding packet_size
packet_size-full i size v (inl h) k = ground (arith, h, k)
packet_size-full i size v (inr h) k = ground (arith, h, k)

abbrev pub next_memory : Sender → Bytes
next_memory v =
    overwrite (data_packet_init v.next_sequence_number ++ take v.request.block_size v.source)
      (v.data_packets (slot_index v.request.window_size v.next_sequence_number))

-- The file has fewer blocks than there are block numbers.
abbrev pub max_blocks : ℕ
max_blocks = 65534

few_blocks :
    (n size left total : ℕ) → n * size + left ≡ total → total < max_blocks * size → n < max_blocks
few_blocks n size left total e h = lt_of_mul-lt-mul_right size (omega (arith, e, h))

mul_pred : (n size : ℕ) → 0 < n → n * size ≡ (n - 1) * size + size
mul_pred n size h =
    let same : n ≡ suc (n - 1) = omega arith in ap (λ k. k * size) same ∙ suc-mul (n - 1) size

full_block :
    (size n : ℕ) (l : Bytes) (b : Bool)
    → n ≡ size
    → (b || ltb (length (take n l)) n) ≡ false
    → length (take size l) ≡ size
full_block size n l b e h = let most = length-take n l in ground (arith, e, h, most)

counted_block :
    (size n total : ℕ) (source : Bytes)
    → 0 < n
    → (n - 1) * size + length source ≡ total
    → length (take size source) ≡ size
    → n * size + length (drop size source) ≡ total
counted_block size n total source h e full =
    let taken = length-take size source in
    let dropped = length-drop size source in
    let split = mul_pred n size h in omega (arith, e, full, taken, dropped, split)

module _ (server : Address) (size window : ℕ) (content : Bytes) where
  abbrev Sending : Sender → Type 0
  Sending = IsSending server size window content

  next_in_range :
      (v : Sender)
      → Sending v
      → v.end_of_file ≡ false
      → length content < max_blocks * size
      → u16 (v.next_sequence_number + 1) ≡ v.next_sequence_number + 1
  next_in_range v w more bound =
      let small = few_blocks (v.next_sequence_number - 1) size _ _ (w.has_count more) bound in
      mod-eq_of_lt {n = v.next_sequence_number + 1} {m = u16_mod} (omega (arith, small))

  -- The block that is sent is in its slot.
  pub next_payload :
      (v : Sender)
      → Sending v
      → take v.request.block_size v.source ≡ chunk size v.next_sequence_number content
  next_payload v w = ap (λ k. take k v.source) w.sends_to.has_size ∙ ap (take size) w.has_rest

  in_flight-next :
      (v : Sender) (s : Request) (i : ℕ)
      → Sending v
      → i ≡ v.next_sequence_number
      → i + 1 ≡ u16 (v.next_sequence_number + 1)
      → take (packet_size i (sent_block (next_memory v) s v)) (
          store
            (slot_index window v.next_sequence_number)
            (next_memory v)
            v.data_packets
            (slot_index window i))
        ≡ data_packet_init i ++ chunk size i content
  in_flight-next v s i w e last =
      let slot = slot_index window v.next_sequence_number in
      let memory = next_memory v in
      let payload = take v.request.block_size v.source in
      ap (λ k. take k (store slot memory v.data_packets (slot_index window i)))
        (packet_size-last i (sent_block memory s v) last)
      ∙ ap (λ k. take (4 + length payload) (store slot memory v.data_packets (slot_index window k)))
          e
      ∙ ap (take (4 + length payload)) (store-same slot memory v.data_packets)
      ∙ take-overwrite v.next_sequence_number payload
          (v.data_packets (slot_index v.request.window_size v.next_sequence_number))
      ∙ ap (data_packet_init v.next_sequence_number ++◌) (next_payload v w)
      ∙ ap (λ k. data_packet_init k ++ chunk size k content) (sym e)

  in_flight-earlier :
      (v : Sender) (s : Request) (i : ℕ)
      → Sending v
      → v.end_of_file ≡ false
      → v.next_sequence_number < v.window_begin + window
      → window < u16_mod
      → v.window_begin ≤ i
      → i < v.next_sequence_number
      → u16 (v.next_sequence_number + 1) ≡ v.next_sequence_number + 1
      → s.block_size ≡ size
      → take (packet_size i (sent_block (next_memory v) s v)) (
          store
            (slot_index window v.next_sequence_number)
            (next_memory v)
            v.data_packets
            (slot_index window i))
        ≡ data_packet_init i ++ chunk size i content
  in_flight-earlier v s i w more room hw lo hi next hs =
      let slot = slot_index window v.next_sequence_number in
      let memory = next_memory v in
      let pos = w.is_positive in
      let inside : i + 1 < u16 (v.next_sequence_number + 1) = omega (arith, next) in
      let before =
        packet_size-full i size v (inr (w.is_full more (omega arith))) w.sends_to.has_size in
      ap (λ k. take k (store slot memory v.data_packets (slot_index window i)))
        (packet_size-full i size (sent_block memory s v) (inl inside) hs ∙ sym before)
      ∙ ap (take (packet_size i v)) (
          store-in_flight window v.next_sequence_number i memory v.data_packets (omega arith) hi
            w.no_wrap (omega arith) hw)
      ∙ w.in_flight i lo hi

  in_flight-sent_block :
      (v : Sender) (s : Request) (i : ℕ)
      → Sending v
      → v.end_of_file ≡ false
      → v.next_sequence_number < v.window_begin + window
      → window < u16_mod
      → u16 (v.next_sequence_number + 1) ≡ v.next_sequence_number + 1
      → v.window_begin ≤ i
      → i < u16 (v.next_sequence_number + 1)
      → s.block_size ≡ size
      → take (packet_size i (sent_block (next_memory v) s v)) (
          store
            (slot_index window v.next_sequence_number)
            (next_memory v)
            v.data_packets
            (slot_index window i))
        ≡ data_packet_init i ++ chunk size i content
  in_flight-sent_block v s i w more room hw next lo hi hs = elim (dec_lt i v.next_sequence_number) [
    | yes p ↦ in_flight-earlier v s i w more room hw lo p next hs
    | no p ↦ in_flight-next v s i w (omega (arith, next)) (omega (arith, next))
  ]

  pub IsSending-sent_block :
      (v : Sender) (s : Request)
      → Sending v
      → IsSendingTo server size window content s
      → v.end_of_file ≡ false
      → v.next_sequence_number < v.window_begin + window
      → length content < max_blocks * size
      → window < u16_mod
      → Sending (sent_block (next_memory v) s v)
  IsSending-sent_block v s w t more room bound hw =
      let next = next_in_range v w more bound in
      let order = w.is_ordered in
      let pos = w.is_positive in
      let source_eq = w.has_rest in
      let size_eq = w.sends_to.has_size in
      let last : v.next_sequence_number ≡ u16 (v.next_sequence_number + 1) - 1 =
        omega (arith, next) in
      record {
        sends_to = record {
          is_server = t.is_server;
          has_size = t.has_size;
          has_window = t.has_window;
          are_faithful = t.are_faithful;
        };
        is_positive = w.is_positive;
        is_ordered = omega (arith, next, order);
        is_within = omega (arith, next, room);
        no_wrap = omega arith;
        has_rest =
            ap (λ k. drop k v.source) size_eq
            ∙ ap (drop size) source_eq
            ∙ drop-rest_of_pred size v.next_sequence_number content (omega (arith, pos, order))
            ∙ ap (λ k. rest_of size k content) last;
        has_count = λ h.
            ap (λ k. k * size + length (drop v.request.block_size v.source)) (sym last)
            ∙ ap (λ k. v.next_sequence_number * size + length (drop k v.source)) size_eq
            ∙ counted_block size v.next_sequence_number _ v.source (omega (arith, pos, order))
                (w.has_count more) (full_block size _ v.source _ size_eq h);
        is_full = λ h l.
            ap (λ k. 4 + length (take k v.source)) size_eq
            ∙ ap (λ k. 4 + k) (full_block size _ v.source _ size_eq h);
        is_waiting = λ h. omega (arith, next, order);
        in_flight = λ i lo hi.
            ap
              (λ k. take (packet_size i (sent_block (next_memory v) s v)) (
                store (slot_index k v.next_sequence_number) (next_memory v) v.data_packets
                  (slot_index window i)))
              w.sends_to.has_window
            ∙ in_flight-sent_block v s i w more room hw next lo hi t.has_size;
      }
