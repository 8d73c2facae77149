-- ===== src/Client/Send/Chunks.antt =====
-- The blocks of a file, and what it means that a packet of the client carries one of them.
use file_transfer_over_udp.Prelude.{
  ℕ, zero, suc, ◌+◌, ◌-◌, ◌*◌, ◌≤◌, ◌<◌, ◌≡◌, refl, ap, ◌∙◌, Bool, true, false, Bool-cases, inl,
  inr, some, List, [], ◌∷◌, ◌++◌, length, take, drop, if◌then◌else◌, arith,
}
use file_transfer_over_udp.Prelude.Words.{Bytes, u16_mod}
use file_transfer_over_udp.Inet.{Address}
use file_transfer_over_udp.Wire.{unknown_transfer_id}
use file_transfer_over_udp.Wire.Packet.{data_packet_init, error_packet_info}
use file_transfer_over_udp.Window.{slot_index}
use file_transfer_over_udp.Client.{Request, Effect, packet_sent, send_to, succeeds}
use file_transfer_over_udp.Client.Receive.{Progress, going, complete, failed, undefined}
use file_transfer_over_udp.Client.Send.{Sender, packet_size}

-- What is left of a file behind its first `n` blocks, and its block number `n`, from 1 on.
abbrev pub rest_of : ℕ → ℕ → Bytes → Bytes
rest_of size zero content = content
rest_of size (suc n) content = rest_of size n (drop size content)

abbrev pub chunk : ℕ → ℕ → Bytes → Bytes
chunk size n content = take size (rest_of size (n - 1) content)

drop-rest_of :
    (size n : ℕ) (content : Bytes)
    → drop size (rest_of size n content) ≡ rest_of size (suc n) content
drop-rest_of size zero content = refl
drop-rest_of size (suc n) content = drop-rest_of size n (drop size content)

pub drop-rest_of_pred :
    (size n : ℕ) (content : Bytes)
    → 0 < n
    → drop size (rest_of size (n - 1) content) ≡ rest_of size n content
drop-rest_of_pred size n content h =
    let same : suc (n - 1) ≡ n = omega arith in
    drop-rest_of size (n - 1) content ∙ ap (λ k. rest_of size k content) same

-- What the client may do to the outside while it sends a file: block `n` of the file as DATA packet
-- `n`, to the server, or the error for a packet from elsewhere.
pub data IsFaithful (server : Address) (size : ℕ) (content : Bytes) : Effect → Type 0 where
  block_sent :
      (n : ℕ)
      → 0 < n
      → n < u16_mod
      → IsFaithful server size content
          (packet_sent server (data_packet_init n ++ chunk size n content))
  stranger_told :
      (address : Address) (packet : Bytes)
      → error_packet_info unknown_transfer_id ≡ some packet
      → IsFaithful server size content (packet_sent address packet)

abbrev pub AreFaithful : Address → ℕ → Bytes → List Effect → Type 0
AreFaithful server size content [] = Unit
AreFaithful server size content (e ∷ rest) =
    IsFaithful server size content e × AreFaithful server size content rest

pub AreFaithful-append :
    (server : Address) (size : ℕ) (content : Bytes) (l : List Effect) (e : Effect)
    → AreFaithful server size content l
    → IsFaithful server size content e
    → AreFaithful server size content (l ++ e ∷ [])
AreFaithful-append server size content [] e h k = (k, tt)
AreFaithful-append server size content (x ∷ l) e h k =
    (h.0, AreFaithful-append server size content l e h.1 k)

-- The parts of a request that stay as they are while its file is sent.
pub record IsSendingTo (server : Address) (size window : ℕ) (content : Bytes) (r : Request)
    : Type 0 where
  pub is_server : r.server_addr ≡ server
  pub has_size : r.block_size ≡ size
  pub has_window : r.window_size ≡ window
  pub are_faithful : AreFaithful server size content r.effects

pub send_to-IsSendingTo :
    (server : Address) (size window : ℕ) (content : Bytes) (r : Request) (address : Address)
    (packet : Bytes)
    → IsSendingTo server size window content r
    → IsFaithful server size content (packet_sent address packet)
    → IsSendingTo server size window content (send_to address packet r).1
unfolding send_to
send_to-IsSendingTo server size window content r address packet w k =
    elim (Bool-cases (succeeds r.answers)) [
      | inl t ↦ rw t (record {
        is_server = w.is_server;
        has_size = w.has_size;
        has_window = w.has_window;
        are_faithful = AreFaithful-append server size content r.effects _ w.are_faithful k;
      })
      | inr f ↦ rw f (record {
        is_server = w.is_server;
        has_size = w.has_size;
        has_window = w.has_window;
        are_faithful = w.are_faithful;
      })
    ]

-- The state of a transfer: a window without a wrap, whose packets carry their blocks.
pub record IsSending (server : Address) (size window : ℕ) (content : Bytes) (v : Sender)
    : Type 0 where
  pub sends_to : IsSendingTo server size window content v.request
  pub is_positive : 0 < v.window_begin
  pub is_ordered : v.window_begin ≤ v.next_sequence_number
  pub is_within : v.next_sequence_number ≤ v.window_begin + window
  pub no_wrap : v.next_sequence_number < u16_mod
  pub has_rest : v.source ≡ rest_of size (v.next_sequence_number - 1) content
  pub has_count :
      v.end_of_file ≡ false → (v.next_sequence_number - 1) * size + length v.source ≡ length content
  pub is_full :
      v.end_of_file ≡ false
      → v.window_begin < v.next_sequence_number
      → v.last_packet_size ≡ 4 + size
  pub is_waiting : v.end_of_file ≡ true → v.window_begin < v.next_sequence_number
  pub in_flight :
      (i : ℕ)
      → v.window_begin ≤ i
      → i < v.next_sequence_number
      → take (packet_size i v) (v.data_packets (slot_index window i))
        ≡ data_packet_init i ++ chunk size i content

-- What a step of the transfer leaves, by how it ends; it never ends in undefined behaviour.
abbrev Keeps : Address → ℕ → ℕ → Bytes → Progress × Sender → Type 0
Keeps server size window content (going, v) = IsSending server size window content v
Keeps server size window content (complete, v) = AreFaithful server size content v.request.effects
Keeps server size window content (failed, v) = AreFaithful server size content v.request.effects
Keeps server size window content (undefined, v) = ⊥

pub record Kept (server : Address) (size window : ℕ) (content : Bytes) (r : Progress × Sender)
    : Type 0 where
  pub keeps : Keeps server size window content r

module _ {server : Address} {size window : ℕ} {content : Bytes} where
  pub Kept-if :
      {x y : Progress × Sender} (b : Bool)
      → (b ≡ true → Kept server size window content x)
      → (b ≡ false → Kept server size window content y)
      → Kept server size window content (if b then x else y)
  Kept-if true h k = h refl
  Kept-if false h k = k refl

  -- A step that is followed by another one if the transfer goes on.
  pub Kept-next :
      {rest : Progress × Sender}
      → (r : Progress × Sender) → Kept server size window content r
      → (r.0 ≡ going
          → IsSending server size window content r.1
          → Kept server size window content rest)
      → Kept server size window content (elim r.0 [ going ↦ rest | other ↦ (other, r.1) ])
  Kept-next (going, v) w h = h refl w.keeps
  Kept-next (complete, v) w h = w
  Kept-next (failed, v) w h = w
  Kept-next (undefined, v) w h = w
