-- ===== src/Server/Connection.antt =====
-- The socket of a session: tftp/src/server/session_connection.c.
pub mod Balance
use file_transfer_over_udp.Prelude.{
  ℕ, Bool, true, false, Option, none, some, List, [], ◌∷◌, if◌then◌else◌,
}
use file_transfer_over_udp.Inet.{Address, ipv4, ipv6, other_family}
use file_transfer_over_udp.Server.Listener.{Call, opened, closed}

-- `struct session_connection`, with its calls so far, the last one first; a descriptor of -1 is `none`.
pub record SessionConnection : Type 0 where
  pub sockfd : Option ℕ
  pub address : Address
  pub client_address : Address
  pub last_message_address : Option Address
  pub has_recv_buffer : Bool
  pub calls : List Call

-- What the system answers: `malloc`, `socket` with a descriptor, `bind`, and `getsockname`.
pub record Answers : Type 0 where
  pub allocated : Bool
  pub socket : Option ℕ
  pub is_bound : Bool
  pub name : Option Address

-- A port that the system chooses.
unfoldable pub without_port : Address → Address
without_port (ipv4 port a) = ipv4 0 a
without_port (ipv6 port a scope) = ipv6 0 a scope
without_port (other_family family) = other_family family

-- The socket, once the addresses are known.
unfoldable pub bind_socket : Answers → SessionConnection → Bool × SessionConnection
bind_socket answers connection = elim answers.socket [
  | none ↦ (false, connection)
  | some fd ↦
      let taken : SessionConnection = record connection {
        sockfd = some fd;
        address = without_port connection.address;
        calls = opened fd ∷ connection.calls;
      } in
      let given_back : SessionConnection = record taken { calls = closed fd ∷ taken.calls } in
      if answers.is_bound
      then (elim answers.name [
        | none ↦ (false, given_back)
        | some name ↦ (
          true,
          record taken { address = name; last_message_address = some taken.client_address },
        )
      ])
      else (false, given_back)
]

-- `session_connection_init`, with `sockaddr_in6_to_in` for the two addresses.
unfoldable pub session_connection_init :
    (Address → Option Address) → Answers → Address → Address → Bool → Bool × SessionConnection
session_connection_init sockaddr_in6_to_in answers session_addr client_addr is_ipv4 =
    let connection : SessionConnection = record {
      sockfd = none;
      address = session_addr;
      client_address = client_addr;
      last_message_address = none;
      has_recv_buffer = answers.allocated;
      calls = [];
    } in
    if answers.allocated
    then (if is_ipv4
        then (elim (sockaddr_in6_to_in session_addr) [
          | none ↦ (false, connection)
          | some ipv4_serv_addr ↦
              let served : SessionConnection = record connection { address = ipv4_serv_addr } in
              elim (sockaddr_in6_to_in client_addr) [
                | none ↦ (false, served)
                | some ipv4_clnt_addr ↦
                    bind_socket answers (record served { client_address = ipv4_clnt_addr })
              ]
        ])
        else bind_socket answers connection)
    else (false, connection)

-- `session_connection_destroy`.
unfoldable pub session_connection_destroy : SessionConnection → SessionConnection
session_connection_destroy connection = elim connection.sockfd [
  | none ↦ record connection { has_recv_buffer = false }
  | some fd ↦ record connection { has_recv_buffer = false; calls = closed fd ∷ connection.calls }
]
