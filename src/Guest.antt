-- ===== src/Guest.antt =====
-- The guest crate (guest/src): the program that Jolt proves.
pub mod Memory
pub mod Types
pub mod Exec
