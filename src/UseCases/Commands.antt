-- ===== src/UseCases/Commands.antt =====
-- internal/biz/usecase/resources/commands.go. The pages of the lookups are left out.
use inventory_api.Base.{ℕ, Bool, Option, List, Text}
use inventory_api.Model.Representation.{Representation}
use inventory_api.Model.Consistency.{Consistency}
use inventory_api.Model.References.{ResourceReference, SubjectReference}
use inventory_api.Relations.Codes.{Code, RepresentationType}

pub data WriteVisibility : Type 0 where
  unspecified minimize_latency consistent : WriteVisibility

pub record ReportResourceCommand : Type 0 where
  pub local_resource_id : Text
  pub resource_type : Text
  pub reporter_type : Text
  pub reporter_instance_id : Text
  pub api_href : Text
  pub console_href : Option Text
  pub reporter_version : Option Text
  pub transaction_id : Option Text
  pub reporter_representation : Option Representation
  pub common_representation : Option Representation
  pub write_visibility : WriteVisibility

pub record CheckBulkItem : Type 0 where
  pub resource : ResourceReference
  pub relation : Text
  pub subject : SubjectReference

pub record CheckBulkCommand : Type 0 where
  pub items : List CheckBulkItem
  pub consistency : Option Consistency

pub record CheckSelfBulkItem : Type 0 where
  pub resource : ResourceReference
  pub relation : Text

pub record CheckSelfBulkCommand : Type 0 where
  pub items : List CheckSelfBulkItem
  pub consistency : Option Consistency

pub record CheckBulkResultItem : Type 0 where
  pub allowed : Bool
  pub error : Option Code
  pub error_code : ℕ

pub record CheckBulkResultPair : Type 0 where
  pub request : CheckBulkItem
  pub result : CheckBulkResultItem

pub record BulkResult : Type 0 where
  pub pairs : List CheckBulkResultPair
  pub consistency_token : Text

pub record LookupObjectsCommand : Type 0 where
  pub object_type : RepresentationType
  pub relation : Text
  pub subject : SubjectReference
  pub consistency : Option Consistency

pub record LookupSubjectsCommand : Type 0 where
  pub resource : ResourceReference
  pub relation : Text
  pub subject_type : RepresentationType
  pub subject_relation : Option Text
  pub consistency : Option Consistency
