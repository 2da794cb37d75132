-- ===== src/Model/Snapshots.antt =====
-- internal/biz/model/snapshots.go: what a repository stores.
use inventory_api.Base.{ℕ, Bool, Option, Text}
use inventory_api.Model.Values.{Time, Uuid}
use inventory_api.Model.Representation.{Representation}

pub record ResourceSnapshot : Type 0 where
  pub id : Uuid
  pub resource_type : Text
  pub common_version : Option ℕ
  pub last_common_version : Option ℕ
  pub consistency_token : Text
  pub created_at : Time
  pub updated_at : Time

pub record ReporterResourceKeySnapshot : Type 0 where
  pub local_resource_id : Text
  pub reporter_type : Text
  pub resource_type : Text
  pub reporter_instance_id : Text

pub record ReporterResourceSnapshot : Type 0 where
  pub id : Uuid
  pub reporter_resource_key : ReporterResourceKeySnapshot
  pub resource_id : Uuid
  pub api_href : Text
  pub console_href : Option Text
  pub representation_version : ℕ
  pub generation : ℕ
  pub tombstone : Bool
  pub created_at : Time
  pub updated_at : Time

pub record CommonRepresentationSnapshot : Type 0 where
  pub representation : Representation
  pub resource_id : Uuid
  pub version : ℕ
  pub reported_by_reporter_type : Text
  pub reported_by_reporter_instance : Text
  pub transaction_id : Text
  pub created_at : Time

pub record ReporterRepresentationSnapshot : Type 0 where
  pub representation : Representation
  pub reporter_resource_id : Uuid
  pub version : ℕ
  pub generation : ℕ
  pub reporter_version : Option Text
  pub common_version : Option ℕ
  pub transaction_id : Text
  pub tombstone : Bool
  pub created_at : Time
