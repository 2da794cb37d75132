-- ===== src/Store.antt =====
-- The repositories of resources.
pub mod Repository
pub mod State
pub mod Fake
pub mod Transactions
