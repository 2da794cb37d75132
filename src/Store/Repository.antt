-- ===== src/Store/Repository.antt =====
-- internal/biz/model: the interfaces ResourceRepository and TransactionManager, and the errors that the
-- layers above them pass on. An error that wraps another one with `%w` is that one.
use inventory_api.Base.{ℕ, Bool, Option, Text, Result}
use inventory_api.Model.Values.{Error, Time}
use inventory_api.Model.ReporterResource.{ReporterResourceKey}
use inventory_api.Model.Resource.{Resource}
use inventory_api.Access.Authorization.{EnforcementError}
use inventory_api.Relations.Codes.{Code}

-- `panicked` is a nil pointer that is dereferenced. `no_items` and `no_request` are refused by the service.
-- `postgres` and `sqlite` carry the code of the driver's error; `external` is an error of a call that
-- leaves the repository, such as the one for a fresh UUID.
pub data Fault : Type 0 where
  unauthenticated self_subject_missing tokens_unavailable mismatched_results panicked : Fault
  no_items no_request : Fault
  record_not_found resource_not_found database_error no_representations : Fault
  duplicate_key duplicate_transaction_id simulated_failure : Fault
  not_enforced : EnforcementError → Fault
  invalid_argument domain : Error → Fault
  relations : Code → Fault
  postgres external : Text → Fault
  sqlite : ℕ → Fault

pub data EventOperationType : Type 0 where
  created updated deleted : EventOperationType

-- A function that runs in a transaction: its error, if it has one, and the state that it leaves.
abbrev pub Run : Type 0 → Type 0
Run S = S → Option Fault × S

pub record ResourceRepository : Type 1 where
  pub State : Type 0
  pub find_resource_by_keys : ReporterResourceKey → State → Result Fault Resource
  pub save : Time → Resource → EventOperationType → Text → Run State
  pub has_transaction_id_been_processed : Text → State → Result Fault Bool
  pub handle_serializable_transaction : Run State → Run State
