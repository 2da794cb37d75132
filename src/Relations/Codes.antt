-- ===== src/Relations/Codes.antt =====
-- internal/biz/model/relations_repository.go, fencing_check.go, check_result.go, check_bulk_result.go
-- and representation_type.go: the operations of a relations backend, over a state of the backend's own.
-- An error is its gRPC code.
use inventory_api.Base.{ℕ, Bool, Option, List, Text, Result}
use inventory_api.Model.Consistency.{Consistency}
use inventory_api.Model.References.{
  ResourceReference, SubjectReference, RelationsTuple, TupleFilter, Relationship,
}

pub data Code : Type 0 where
  failed_precondition already_exists unavailable unknown : Code

pub record FencingCheck : Type 0 where
  pub lock_id : Text
  pub lock_token : Text

pub record CheckResult : Type 0 where
  pub allowed : Bool
  pub consistency_token : Text

pub record RelationsRepository : Type 1 where
  pub State : Type 0
  pub create_tuples :
      List RelationsTuple → Bool → Option FencingCheck → State → Result Code Text × State
  pub delete_tuples : TupleFilter → Option FencingCheck → State → Result Code Text × State
  pub check : Relationship → Consistency → State → Result Code CheckResult × State
  pub acquire_lock : Text → State → Result Code Text × State

pub record CheckBulkResultItem : Type 0 where
  pub allowed : Bool
  pub error : Option Code
  pub error_code : ℕ

pub record CheckBulkResultPair : Type 0 where
  pub request : Relationship
  pub result : CheckBulkResultItem

pub record CheckBulkResult : Type 0 where
  pub pairs : List CheckBulkResultPair
  pub consistency_token : Text

pub record RepresentationType : Type 0 where
  pub resource_type : Text
  pub reporter_type : Option Text

-- The read-only operations, without the page that a caller may ask for.
pub record RelationsQueries (State : Type 0) : Type 0 where
  pub check : Relationship → Consistency → State → Result Code CheckResult
  pub check_for_update : Relationship → State → Result Code CheckResult
  pub check_bulk : List Relationship → Consistency → State → Result Code CheckBulkResult
  pub check_for_update_bulk : List Relationship → State → Result Code CheckBulkResult
  pub lookup_objects :
      RepresentationType
      → Text
      → SubjectReference
      → Consistency
      → State
      → Result Code (List ResourceReference)
  pub lookup_subjects :
      ResourceReference
      → Text
      → RepresentationType
      → Option Text
      → Consistency
      → State
      → Result Code (List SubjectReference)
  pub read_tuples : TupleFilter → Consistency → State → Result Code (List RelationsTuple)
