-- ===== src/Access.antt =====
-- Who a request is from, and what it may do.
pub mod Authentication
pub mod FirstMatch
pub mod Authorization
pub mod Callers
