-- ===== src/Server/Listener.antt =====
-- The socket that the server listens on: tftp/src/server/listener.c.
pub mod Balance
use file_transfer_over_udp.Prelude.{
  ℕ, Bool, true, false, not, ◌&&◌, ◌||◌, Option, none, some, List, [], ◌∷◌, if◌then◌else◌,
}
use file_transfer_over_udp.Inet.{Address}

-- The calls that take or give back something.
pub data Call : Type 0 where
  opened closed : ℕ → Call
  list_taken list_freed control_taken control_freed : Call

-- An address that `getaddrinfo` gives, and the answers to the calls for it: the descriptor of `socket`, if
-- there is one, whether each `setsockopt` succeeds, whether `sockaddr_ntop` gives a string, and whether
-- `bind` succeeds.
pub record Candidate : Type 0 where
  pub address : Address
  pub socket : Option ℕ
  pub reuse_addr : Bool
  pub orig_dst_addr : Bool
  pub not_v6only : Bool
  pub has_string : Bool
  pub is_bound : Bool

-- The answer of `getaddrinfo`; if it fails, whether it has left a list.
pub data Translation : Type 0 where
  translated : List Candidate → Translation
  untranslated : Bool → Translation

-- `struct tftp_server_listener`, with the calls so far, the last one first; a descriptor of -1 is `none`.
pub record Listener : Type 0 where
  pub file_descriptor : Option ℕ
  pub has_control : Bool
  pub addr_storage : Option Address
  pub calls : List Call

unfoldable pub call : Call → Listener → Listener
call c listener = record listener { calls = c ∷ listener.calls }

unfoldable pub setsockopt_err : Bool → Candidate → Bool
setsockopt_err is_host_ipv6 a =
    not a.reuse_addr
    || (not is_host_ipv6 && not a.orig_dst_addr)
    || (is_host_ipv6 && not a.orig_dst_addr)
    || (is_host_ipv6 && not a.not_v6only)

-- The labels `fail` and `fail2`.
unfoldable pub fail : Listener → Bool × Listener
fail listener = (false, call list_freed listener)

unfoldable pub fail2 : ℕ → Listener → Bool × Listener
fail2 fd listener = fail (call (closed fd) listener)

unfoldable pub bound : Address → Listener → Bool × Listener
bound address listener = (true, call list_freed (record listener { addr_storage = some address }))

-- The loop over the addresses, and what follows it.
unfoldable pub bind_first : Bool → List Candidate → Listener → Bool × Listener
bind_first is_host_ipv6 [] listener = elim listener.file_descriptor [
  | none ↦ fail listener
  | some fd ↦ fail2 fd listener
]
bind_first is_host_ipv6 (a ∷ rest) listener = elim a.socket [
  | none ↦ fail (record listener { file_descriptor = none })
  | some fd ↦
      let taken = call (opened fd) (record listener { file_descriptor = some fd }) in
      let next = bind_first is_host_ipv6 rest (call (closed fd) taken) in
      if setsockopt_err is_host_ipv6 a
      then fail2 fd taken
      else if not a.has_string
      then fail2 fd taken
      else if a.is_bound
      then bound a.address taken
      else next
]

-- `tftp_server_listener_init`, with the answers of `malloc`, of `is_ipv6_address` and of `getaddrinfo` with
-- the hints of a family.
unfoldable pub tftp_server_listener_init : Bool → Bool → (Bool → Translation) → Bool × Listener
tftp_server_listener_init allocated is_host_ipv6 getaddrinfo =
    let listener : Listener = record {
      file_descriptor = none;
      has_control = allocated;
      addr_storage = none;
      calls = if allocated then control_taken ∷ [] else [];
    } in
    if allocated
    then (elim (getaddrinfo is_host_ipv6) [
      | untranslated has_list ↦
          (false, if has_list then call list_freed (call list_taken listener) else listener)
      | translated addrinfo_list ↦ bind_first is_host_ipv6 addrinfo_list (call list_taken listener)
    ])
    else (false, listener)

-- `tftp_server_listener_destroy`.
unfoldable pub tftp_server_listener_destroy : Listener → Listener
tftp_server_listener_destroy listener = elim listener.file_descriptor [
  | none ↦ call control_freed listener
  | some fd ↦ call control_freed (call (closed fd) listener)
]
