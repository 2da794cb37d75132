-- ===== src/Relations.antt =====
-- The relations backend: its interface, and an implementation of it.
pub mod Codes
pub mod Simple
