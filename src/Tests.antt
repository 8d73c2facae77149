-- ===== src/Tests.antt =====
-- Runs of the code at concrete values.
mod Setup
mod Windows
mod Wire
mod Sessions
mod Transfers
mod Clients
mod Writes
mod Pools
mod Ends
