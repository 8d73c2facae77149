-- ===== src/Server.antt =====
-- The server: tftp/src/server. `Session` is one transfer; `Dispatcher`, `Worker` and `Pool` run sessions,
-- and `Loop` hands the requests to them.
pub mod Session
pub mod Dispatcher
pub mod Worker
pub mod Pool
pub mod Listener
pub mod Connection
pub mod Loop
