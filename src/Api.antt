-- ===== src/Api.antt =====
-- The objects of the program.
pub mod Core
pub mod Lpm
pub mod Rpc
