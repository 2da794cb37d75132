-- ===== src/Model.antt =====
-- The domain model of internal/biz/model.
pub mod Values
pub mod Representation
pub mod ReporterResource
pub mod Events
pub mod Resource
pub mod References
pub mod Snapshots
pub mod Serialization
pub mod Tuples
pub mod Representations
pub mod Schema
pub mod SchemaService
pub mod SchemaRepository
pub mod Consistency
