-- ===== src/UseCases.antt =====
-- The use cases of internal/biz/usecase.
pub mod Commands
pub mod Reports
pub mod SelfSubject
pub mod Checks
pub mod Tuples
