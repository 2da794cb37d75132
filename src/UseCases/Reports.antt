-- ===== src/UseCases/Reports.antt =====
-- internal/biz/usecase/resources/resource_service.go and commands.go: ReportResource and Delete, over
-- any repository of resources. Logs and metrics are left out. What a call reads from outside stands in
-- its environment: the caller, the clock, fresh ids, and how the wait for a notification ends. A
-- function that a transaction runs again reads the same clock and the same ids again.
pub mod Admission
pub mod Calls
pub mod Held
pub mod Marks
pub mod Runs
pub mod Repeats
pub mod Remembers
pub mod First
use inventory_api.Base.{
  Bool, true, false, not, ◌&&◌, ◌||◌, Option, none, some, List, [], ◌∷◌, nonempty, Text, codes,
  list_eq, nat_eq, ◌==◌, if◌then◌else◌, CaseTables, Result, ok, err, ◌>>=◌, ◌>>◌,
}
use inventory_api.Model.Values.{Error, Time, Uuid}
use inventory_api.Model.Representation.{Representation}
use inventory_api.Model.ReporterResource.{ReporterResourceKey, new_reporter_resource_key}
use inventory_api.Model.Resource.{Resource, Report, new_resource, update_resource, delete_resource}
use inventory_api.Model.SchemaService.{SchemaReads, validate_report_against_schema}
use inventory_api.Access.Authentication.{Claims}
use inventory_api.Access.Authorization.{
  AuthzContext, MetaAuthorizer, EnforcementError, enforce_meta_authz_object,
  new_inventory_resource_from_key,
}
use inventory_api.Store.Repository.{
  Fault, unauthenticated, not_enforced, invalid_argument, domain, record_not_found,
  resource_not_found, database_error, duplicate_transaction_id, ResourceRepository, Run,
  EventOperationType, created, updated, deleted,
}
use inventory_api.UseCases.Commands.{
  WriteVisibility, ReportResourceCommand, unspecified, minimize_latency, consistent,
}

pub record UsecaseConfig : Type 0 where
  pub read_after_write_enabled : Bool
  pub read_after_write_allowlist : List Text
  pub consumer_enabled : Bool
  pub default_to_at_least_as_acknowledged : Bool
  pub idempotency_check_enabled : Bool

-- How Execute of the circuit breaker ends.
pub data WaitOutcome : Type 0 where
  notified wait_cancelled breaker_open too_many_requests : WaitOutcome
  wait_failed : Fault → WaitOutcome

pub record Environment : Type 0 where
  pub context : Option AuthzContext
  pub authorizer : Option MetaAuthorizer
  pub config : UsecaseConfig
  pub schemas : SchemaReads
  pub has_listen_manager : Bool
  pub next_transaction_id : Result Fault Text
  pub retry_transaction_id : Result Fault Text
  pub next_resource_id : Result Fault Uuid
  pub next_reporter_resource_id : Result Fault Uuid
  pub now : Time
  pub later : Time
  pub wait : WaitOutcome

abbrev pub report_resource_relation : Text
report_resource_relation = codes "report_resource"

abbrev pub delete_resource_relation : Text
delete_resource_relation = codes "delete_resource"

abbrev pub key_of : ReportResourceCommand → ReporterResourceKey
key_of cmd =
    new_reporter_resource_key cmd.local_resource_id cmd.resource_type cmd.reporter_type
      cmd.reporter_instance_id

-- The data of the report, under the transaction id of the command.
abbrev pub report_of : ReportResourceCommand → Text → Report
report_of cmd txid = record {
  api_href = cmd.api_href;
  console_href = cmd.console_href;
  reporter_version = cmd.reporter_version;
  reporter_data = cmd.reporter_representation;
  common_data = cmd.common_representation;
  transaction_id = txid;
}

-- The transaction id of a command that has none, or an empty one, is the fresh one.
unfoldable pub transaction_id_of : ReportResourceCommand → Text → Text
transaction_id_of cmd txid = elim cmd.transaction_id [
  | none ↦ txid
  | some id ↦ if nonempty id then id else txid
]

-- isSPInAllowlist
unfoldable pub is_sp_in_allowlist : Text → List Text → Bool
is_sp_in_allowlist caller [] = false
is_sp_in_allowlist caller (sp ∷ rest) =
    sp == caller || sp == codes "*" || is_sp_in_allowlist caller rest

abbrev is_consistent : WriteVisibility → Bool
is_consistent unspecified = false
is_consistent minimize_latency = false
is_consistent consistent = true

unfoldable pub compute_read_after_write : Environment → WriteVisibility → Text → Bool
unfolding is_sp_in_allowlist
compute_read_after_write env visibility caller =
    is_consistent visibility
    && env.has_listen_manager
    && env.config.read_after_write_enabled
    && is_sp_in_allowlist caller env.config.read_after_write_allowlist

-- isDuplicateTransactionError
unfoldable pub is_duplicate_transaction_error : Fault → Bool
is_duplicate_transaction_error duplicate_transaction_id = true
is_duplicate_transaction_error _ = false

-- The end of ReportResource: what becomes of a wait that did not see the notification.
unfoldable pub after_wait : WaitOutcome → Option Fault
after_wait (wait_failed e) = some e
after_wait _ = none

unfoldable pub is_record_not_found : Fault → Bool
is_record_not_found record_not_found = true
is_record_not_found _ = false

-- An error of another layer, as an error of this one.
abbrev pub map_error {ℓ} : {E F : Type 0} {A : Type ℓ} → (E → F) → Result E A → Result F A
map_error f (ok a) = ok a
map_error f (err e) = err (f e)

abbrev pub unless : {E : Type 0} → (E → Fault) → Option E → Result Fault (Unit {0})
unless f none = ok tt
unless f (some e) = err (f e)

abbrev pub or_fail {ℓ} : {A : Type ℓ} → Fault → Option A → Result Fault A
or_fail e none = err e
or_fail e (some a) = ok a

-- The callers that are let in: with a subject.
abbrev pub subject_of : Option AuthzContext → Option Claims
subject_of none = none
subject_of (some context) = context.subject

module _ (env : Environment) where
  -- ReportResource up to the validation: the caller's subject, and the fresh transaction id.
  unfoldable pub admit : ReportResourceCommand → Result Fault (Text × Text)
  unfolding validate_report_against_schema
  admit cmd = do
    claims ← or_fail unauthenticated (subject_of env.context)
    unless not_enforced (
        enforce_meta_authz_object env.context env.authorizer report_resource_relation
          (new_inventory_resource_from_key (key_of cmd)))
    txid ← env.next_transaction_id
    map_error invalid_argument (
        validate_report_against_schema env.schemas cmd.resource_type cmd.reporter_type
          cmd.common_representation cmd.reporter_representation)
    ok (claims.subject_id, txid)

  -- Delete up to the transaction.
  unfoldable pub admit_delete : ReporterResourceKey → Result Fault Text
  admit_delete key = do
    unless not_enforced (
        enforce_meta_authz_object env.context env.authorizer delete_resource_relation
          (new_inventory_resource_from_key key))
    env.next_transaction_id

module _ ⦃t : CaseTables⦄ (R : ResourceRepository) (env : Environment) where
  -- createResource
  unfoldable pub create_resource : ReportResourceCommand → Text → Text → Run R.State
  unfolding new_resource
  create_resource cmd id txid s = elim env.next_resource_id [
    | err e ↦ (some e, s)
    | ok resource_id ↦ elim env.next_reporter_resource_id [
      | err e ↦ (some e, s)
      | ok reporter_resource_id ↦
          elim (new_resource resource_id reporter_resource_id (key_of cmd) (report_of cmd id)
            env.now env.later) [
              | err e ↦ (some (domain e), s)
              | ok r ↦ R.save env.later r created txid s
            ]
    ]
  ]

  -- What is saved of an operation on the aggregate: nothing, if it failed.
  unfoldable pub save_unless_failed :
      EventOperationType → Text → Resource × Option Error → Run R.State
  save_unless_failed operation txid (r, some e) s = (some (domain e), s)
  save_unless_failed operation txid (r, none) s = R.save env.later r operation txid s

  -- The function that ReportResource runs in a transaction; with updateResource.
  unfoldable pub report_body : ReportResourceCommand → Text → Text → Run R.State
  unfolding create_resource save_unless_failed update_resource is_record_not_found
  report_body cmd id txid s = elim (R.find_resource_by_keys (key_of cmd) s) [
    | ok r ↦
        save_unless_failed updated txid
          (update_resource (key_of cmd) (report_of cmd id) env.now env.later r) s
    | err e ↦ if is_record_not_found e then create_resource cmd id txid s else (some e, s)
  ]

  -- A duplicate that goes unchecked is run again under a fresh id.
  unfoldable pub retry_duplicate :
      ReportResourceCommand → Text → Option Fault × R.State → Option Fault × R.State
  unfolding report_body is_duplicate_transaction_error
  retry_duplicate cmd txid (none, s) = (none, s)
  retry_duplicate cmd txid (some f, s) =
      if not env.config.idempotency_check_enabled && is_duplicate_transaction_error f
      then elim env.retry_transaction_id [
        | err g ↦ (some g, s)
        | ok again ↦ R.handle_serializable_transaction (report_body cmd again txid) s
      ]
      else (some f, s)

  -- The wait for the notification of the consumer, after a report without an error.
  unfoldable pub wait_for_consumer :
      ReportResourceCommand → Text → Option Fault × R.State → Option Fault × R.State
  unfolding compute_read_after_write after_wait
  wait_for_consumer cmd caller (some f, s) = (some f, s)
  wait_for_consumer cmd caller (none, s) =
      if compute_read_after_write env cmd.write_visibility caller && env.config.consumer_enabled
      then (after_wait env.wait, s)
      else (none, s)

  unfoldable pub report_and_wait : ReportResourceCommand → Text → Text → Text → Run R.State
  unfolding retry_duplicate wait_for_consumer
  report_and_wait cmd caller id txid s =
      wait_for_consumer cmd caller
        (retry_duplicate cmd txid (R.handle_serializable_transaction (report_body cmd id txid) s))

  -- Below the validation: a transaction that was processed before is skipped.
  unfoldable pub report_unless_processed : ReportResourceCommand → Text → Text → Text → Run R.State
  unfolding report_and_wait
  report_unless_processed cmd caller id txid s =
      if env.config.idempotency_check_enabled
      then elim (R.has_transaction_id_been_processed id s) [
        | err e ↦ (some e, s)
        | ok processed ↦ if processed then (none, s) else report_and_wait cmd caller id txid s
      ]
      else report_and_wait cmd caller id txid s

  -- ReportResource
  unfoldable pub report_resource : ReportResourceCommand → Run R.State
  unfolding admit report_unless_processed transaction_id_of
  report_resource cmd s = elim (admit env cmd) [
    | err e ↦ (some e, s)
    | ok (caller, txid) ↦ report_unless_processed cmd caller (transaction_id_of cmd txid) txid s
  ]

  -- The function that Delete runs in a transaction.
  unfoldable pub delete_body : ReporterResourceKey → Text → Run R.State
  unfolding save_unless_failed delete_resource is_record_not_found
  delete_body key txid s = elim (R.find_resource_by_keys key s) [
    | ok r ↦ save_unless_failed deleted txid (delete_resource key env.now r) s
    | err e ↦ (some (if is_record_not_found e then resource_not_found else database_error), s)
  ]

  -- Delete
  unfoldable pub delete : ReporterResourceKey → Run R.State
  unfolding admit_delete delete_body
  delete key s = elim (admit_delete env key) [
    | err e ↦ (some e, s)
    | ok txid ↦ R.handle_serializable_transaction (delete_body key txid) s
  ]
