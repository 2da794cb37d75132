-- ===== src/Lib.antt =====
-- Inventory API: resources that reporters tell of, and the relations that follow from them.
--
-- A reporter sends a report of a resource with data of its own and data that all reporters share. The
-- aggregate (internal/biz/model/resource.go) gives both a version and makes an event of the change. The
-- event reaches the consumer (internal/consumer/consumer.go), which reads the data of the current and of
-- the previous version, calculates which relation tuples to create and delete
-- (internal/biz/model/schema.go, relation_diff.go), and writes them to a relations backend, with
-- retries. Checks read the backend at a consistency that the caller chooses, or that the repository of
-- resources knows.
--
-- Base holds what all parts share: tests on numbers, equality as an interface, lists and sets, Go
-- strings with the case tables of package unicode as an instance, results with an error, decimals.
-- Model is internal/biz/model: Values (common.go, errors.go, relation.go), Representation (reporter.go,
-- reporter_representation.go, common_representation.go), ReporterResource (reporter_resource.go), Events
-- (resource_report_event.go, resource_delete_event.go), Resource (resource.go), References (the files of
-- references, tuples and filters), Tuples (relation_diff.go, tuples_to_replicate.go), Representations
-- (representations.go), Snapshots (snapshots.go), Serialization (the Serialize and Deserialize
-- functions), Schema (schema.go), SchemaService (schema_service.go), SchemaRepository
-- (internal/data/inmemory_schema_repository.go), Consistency (consistency.go). The modules below
-- Resource, Schema, SchemaService and SchemaRepository hold the proofs.
-- Relations is the backend: Codes is the interface (relations_repository.go), Simple the store in memory
-- (internal/data/relations_simple.go), with its keys and filters in Simple/Keys, its bulk checks and
-- lookups in Simple/Queries, and proofs in the other modules below it.
-- Consumer is internal/consumer/consumer.go: Replication has CreateTuple, UpdateTuple, DeleteTuple and
-- Retry over any backend, Offsets has the stored offsets, Shutdown and the callback for revoked
-- partitions, Locks the callback for assigned ones, Messages has ParseHeaders and ProcessMessage;
-- Replicated, Differences, RelationDefs, Replays, Retries, Commits and Updates are proofs.
-- Access is who calls and may call: Authentication has the chain of
-- internal/authn/aggregator/first_match.go over the claims of internal/authn/api, Authorization the
-- rules of internal/biz/usecase/metaauthorizer; FirstMatch and Callers are proofs.
-- Store is where resources are kept: Repository has the interfaces (resource_repository.go,
-- transaction_manager.go), State and Fake the one in memory (internal/data/fake_resource_repository.go,
-- fake_transaction_manager.go), with the reads for the consumer in Fake/Representations, Transactions
-- the serializable transactions (internal/data/gorm_transaction_manager.go); the other modules below are
-- proofs.
-- UseCases is internal/biz/usecase: Commands has resources/commands.go, Reports has ReportResource and
-- Delete, Checks the checks and lookups (resources/resource_service.go), SelfSubject the subject of a
-- caller (resources/selfsubject_redhat_rbac.go, selfsubject_options.go), Tuples the operations on tuples
-- (tuples/tuple_crud_usecase.go). They take any repository and any backend; the modules below Reports,
-- Checks and SelfSubject are proofs, on the repository and the backend in memory where they say so.
-- Services is the gRPC service of resources (internal/service/resources/kesselinventoryservice.go):
-- Messages has the messages of api/kessel/inventory/v1beta2 as their getters show them, Conversions the
-- conversions to commands and from results, Resources the handlers; Tuples is the service of tuples
-- (internal/service/tuples/tuples.go). The modules below Resources and Tuples are proofs.
-- PubSub is internal/pubsub/listenmanager.go and subscription.go, how a report that waits for the
-- consumer hears of it; Calls below it has the calls of all subscribers one after the other; Waits,
-- Watched and Delivery are proofs.
-- Outbox is internal/biz/model_legacy/outboxevents.go, the events that tell the consumer of a change, and
-- which of them is published; Versions below it is a proof.
-- Tests has concrete inputs.
--
-- A method on a pointer is a function that returns the new state, also next to an error. A Go string
-- is a list of runes. A version or a generation of a resource is a number modulo 2^64; the int64
-- version of the backend in memory is the number of int64 values below it, so that it wraps and
-- compares like them. Theorems on an order of a resource's versions suppose that the counter does
-- not reach its end. An error is its sentinel without the message. The clock and fresh ids are
-- arguments; a transaction that runs its function again reads the same ones again. A nil pointer
-- that is dereferenced is an error of its own. Retry without a limit runs for a number of rounds
-- that is an argument, and the theorems on it hold for every number of rounds beyond the first
-- success. Printing a number runs for one round more than the number, which is more than it has
-- digits.
--
-- Not modelled: the locks of the stores in memory and what needs concurrent calls, the waits of Retry,
-- the JSON parsing and the loop of the consumer's messages, the SQL of the repository over a database,
-- pages of lookups and reads, the single authenticators, logs, metrics and traces, generated code,
-- databases, Kafka, gRPC, SpiceDB and the HTTP servers.
pub mod Base
pub mod Model
pub mod Relations
pub mod Consumer
pub mod Access
pub mod Store
pub mod UseCases
pub mod Services
pub mod PubSub
pub mod Outbox
pub mod Tests
