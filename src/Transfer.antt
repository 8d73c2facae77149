-- ===== src/Transfer.antt =====
-- A client and a server together: the blocks that arrive in any order, more than once or not at all, and
-- the file that is put together from them.
pub mod Prefix
pub mod Put
