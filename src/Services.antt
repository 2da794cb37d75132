-- ===== src/Services.antt =====
-- internal/service/resources: the gRPC service of resources.
pub mod Messages
pub mod Conversions
pub mod Resources
pub mod Tuples
