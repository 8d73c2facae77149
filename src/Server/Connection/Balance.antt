-- ===== src/Server/Connection/Balance.antt =====
-- What the set-up of a session's socket opens and closes.
use file_transfer_over_udp.Prelude.{
  ℕ, ◌+◌, ◌≡◌, refl, Bool, true, false, Option, none, some, [], ◌∷◌, if◌then◌else◌, arith,
}
use file_transfer_over_udp.Inet.{Address}
use file_transfer_over_udp.Server.Listener.{opened, closed}
use file_transfer_over_udp.Server.Listener.Balance.{opens, closes, is_this}
use file_transfer_over_udp.Server.Connection.{
  SessionConnection, Answers, without_port, bind_socket, session_connection_init,
}

-- Descriptor `n` has been opened as often as closed, but for a connection that was set up and holds it.
pub record Kept (n : ℕ) (r : Bool × SessionConnection) : Type 0 where
  pub balance : opens n r.1.calls ≡ closes n r.1.calls + (if r.0 then is_this n r.1.sockfd else 0)

bind_socket-Kept :
    (n : ℕ) (answers : Answers) (connection : SessionConnection)
    → opens n connection.calls ≡ closes n connection.calls
    → Kept n (bind_socket answers connection)
unfolding bind_socket
bind_socket-Kept n answers connection e = go answers.socket answers.name answers.is_bound
  where
    go :
        (d : Option ℕ) (o : Option Address) (b : Bool)
        → Kept n (elim d [
          | none ↦ (false, connection)
          | some fd ↦
              let taken : SessionConnection = record connection {
                sockfd = some fd;
                address = without_port connection.address;
                calls = opened fd ∷ connection.calls;
              } in
              let given_back : SessionConnection = record taken {
                calls = closed fd ∷ taken.calls;
              } in
              if b
              then (elim o [
                | none ↦ (false, given_back)
                | some name ↦ (
                  true,
                  record taken { address = name; last_message_address = some taken.client_address },
                )
              ])
              else (false, given_back)
        ])
    go none o b = record { balance = omega (arith, e) }
    go (some fd) o false = record { balance = omega (arith, e) }
    go (some fd) none true = record { balance = omega (arith, e) }
    go (some fd) (some name) true = record { balance = omega (arith, e) }

-- Whatever the system answers: a connection whose set-up fails has closed the socket that it has opened, and
-- one that was set up has opened one more descriptor than closed, its own.
pub session_connection_init-Kept :
    (n : ℕ) (to_in : Address → Option Address) (answers : Answers)
    (session_addr client_addr : Address) (is_ipv4 : Bool)
    → Kept n (session_connection_init to_in answers session_addr client_addr is_ipv4)
unfolding session_connection_init
session_connection_init-Kept n to_in answers session_addr client_addr is_ipv4 =
    go answers.allocated is_ipv4 (to_in session_addr) (to_in client_addr)
  where
    connection : SessionConnection
    connection = record {
      sockfd = none;
      address = session_addr;
      client_address = client_addr;
      last_message_address = none;
      has_recv_buffer = answers.allocated;
      calls = [];
    }

    go :
        (a b : Bool) (served client : Option Address)
        → Kept n (
            if a
            then (if b
                then (elim served [
                  | none ↦ (false, connection)
                  | some address ↦
                      let next : SessionConnection = record connection { address = address } in
                      elim client [
                        | none ↦ (false, next)
                        | some ipv4_clnt_addr ↦
                            bind_socket answers (record next { client_address = ipv4_clnt_addr })
                      ]
                ])
                else bind_socket answers connection)
            else (false, connection))
    go false b served client = record { balance = refl }
    go true false served client = bind_socket-Kept n answers connection refl
    go true true none client = record { balance = refl }
    go true true (some address) none = record { balance = refl }
    go true true (some address) (some other) = bind_socket-Kept n answers _ refl
