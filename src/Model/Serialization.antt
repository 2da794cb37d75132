-- ===== src/Model/Serialization.antt =====
-- internal/biz/model: the Serialize and Deserialize functions of the aggregate. The conversions of the
-- tiny types are identities on strings and numbers.
use inventory_api.Base.{false, Option, none, some, List, [], ◌∷◌, map, Text}
use inventory_api.Model.Values.{Time}
use inventory_api.Model.Representation.{ReporterRepresentation, CommonRepresentation}
use inventory_api.Model.ReporterResource.{ReporterResource, ReporterResourceKey}
use inventory_api.Model.Events.{ResourceReportEvent, ResourceDeleteEvent}
use inventory_api.Model.Resource.{Resource}
use inventory_api.Model.Snapshots.{
  ResourceSnapshot, ReporterResourceKeySnapshot, ReporterResourceSnapshot,
  CommonRepresentationSnapshot, ReporterRepresentationSnapshot,
}

-- ReporterResource.Serialize
unfoldable pub serialize_reporter_resource : ReporterResource → ReporterResourceSnapshot
serialize_reporter_resource rr = record {
  id = rr.id;
  reporter_resource_key = record {
    local_resource_id = rr.key.local_resource_id;
    reporter_type = rr.key.reporter.reporter_type;
    resource_type = rr.key.resource_type;
    reporter_instance_id = rr.key.reporter.reporter_instance_id;
  };
  resource_id = rr.resource_id;
  api_href = rr.api_href;
  console_href = rr.console_href;
  representation_version = rr.representation_version;
  generation = rr.generation;
  tombstone = rr.tombstone;
  created_at = rr.created_at;
  updated_at = rr.updated_at;
}

unfoldable pub deserialize_reporter_resource_key : Text → Text → Text → Text → ReporterResourceKey
deserialize_reporter_resource_key local_resource_id resource_type reporter_type
      reporter_instance_id =
    record {
      local_resource_id = local_resource_id;
      resource_type = resource_type;
      reporter = record {
        reporter_type = reporter_type;
        reporter_instance_id = reporter_instance_id;
      };
    }

unfoldable pub deserialize_reporter_resource : ReporterResourceSnapshot → ReporterResource
unfolding deserialize_reporter_resource_key
deserialize_reporter_resource s = record {
  id = s.id;
  key =
      deserialize_reporter_resource_key s.reporter_resource_key.local_resource_id
        s.reporter_resource_key.resource_type s.reporter_resource_key.reporter_type
        s.reporter_resource_key.reporter_instance_id;
  resource_id = s.resource_id;
  api_href = s.api_href;
  console_href = s.console_href;
  representation_version = s.representation_version;
  generation = s.generation;
  tombstone = s.tombstone;
  created_at = s.created_at;
  updated_at = s.updated_at;
}

-- ReporterRepresentation.Serialize, which reads the clock.
unfoldable pub serialize_reporter_representation :
    Time → ReporterRepresentation → ReporterRepresentationSnapshot
serialize_reporter_representation now rr = record {
  representation = rr.content;
  reporter_resource_id = rr.reporter_resource_id;
  version = rr.version;
  generation = rr.generation;
  reporter_version = rr.reporter_version;
  common_version = rr.common_version;
  transaction_id = rr.transaction_id;
  tombstone = rr.tombstone;
  created_at = now;
}

unfoldable pub deserialize_reporter_data_representation :
    Option ReporterRepresentationSnapshot → Option ReporterRepresentation
deserialize_reporter_data_representation none = none
deserialize_reporter_data_representation (some s) = some (record {
  content = s.representation;
  reporter_resource_id = s.reporter_resource_id;
  version = s.version;
  generation = s.generation;
  reporter_version = s.reporter_version;
  common_version = s.common_version;
  tombstone = s.tombstone;
  transaction_id = s.transaction_id;
})

-- CommonRepresentation.Serialize, which reads the clock too.
unfoldable pub serialize_common_representation :
    Time → CommonRepresentation → CommonRepresentationSnapshot
serialize_common_representation now cr = record {
  representation = cr.content;
  resource_id = cr.resource_id;
  version = cr.version;
  reported_by_reporter_type = cr.reporter.reporter_type;
  reported_by_reporter_instance = cr.reporter.reporter_instance_id;
  transaction_id = cr.transaction_id;
  created_at = now;
}

unfoldable pub deserialize_common_representation :
    CommonRepresentationSnapshot → CommonRepresentation
deserialize_common_representation s = record {
  content = s.representation;
  resource_id = s.resource_id;
  version = s.version;
  reporter = record {
    reporter_type = s.reported_by_reporter_type;
    reporter_instance_id = s.reported_by_reporter_instance;
  };
  transaction_id = s.transaction_id;
}

abbrev nil_key : ReporterResourceKeySnapshot
nil_key = record {
  local_resource_id = [];
  reporter_type = [];
  resource_type = [];
  reporter_instance_id = [];
}

-- The zero value of Go, which stays where a resource has no reporter resource.
abbrev nil_reporter_resource_snapshot : ReporterResourceSnapshot
nil_reporter_resource_snapshot = record {
  id = 0;
  reporter_resource_key = nil_key;
  resource_id = 0;
  api_href = [];
  console_href = none;
  representation_version = 0;
  generation = 0;
  tombstone = false;
  created_at = 0;
  updated_at = 0;
}

abbrev pub optional {ℓ κ} : {A : Type ℓ} {B : Type κ} → (A → B) → Option A → Option B
optional f none = none
optional f (some a) = some (f a)

-- GetTimestamps, which Serialize writes out.
abbrev pub timestamps : List ResourceReportEvent → Time × Time
timestamps [] = (0, 0)
timestamps (e ∷ _) = (e.created_at, e.updated_at)

-- The first reporter resource alone is stored.
abbrev pub first_reporter_resource : List ReporterResource → ReporterResourceSnapshot
first_reporter_resource [] = nil_reporter_resource_snapshot
first_reporter_resource (rr ∷ _) = serialize_reporter_resource rr

abbrev pub reported_snapshot :
    Time → List ResourceReportEvent → Option ReporterRepresentationSnapshot
reported_snapshot now [] = none
reported_snapshot now (e ∷ _) =
    optional (serialize_reporter_representation now) e.reporter_representation

-- The representation of a delete event hides the one of a report event.
abbrev pub reporter_snapshot :
    Time
    → List ResourceReportEvent
    → List ResourceDeleteEvent
    → Option ReporterRepresentationSnapshot
reporter_snapshot now reports [] = reported_snapshot now reports
reporter_snapshot now reports (d ∷ _) =
    some (serialize_reporter_representation now d.reporter_representation)

abbrev pub common_snapshot : Time → List ResourceReportEvent → Option CommonRepresentationSnapshot
common_snapshot now [] = none
common_snapshot now (e ∷ _) = optional (serialize_common_representation now) e.common_representation

pub record Snapshots : Type 0 where
  pub resource : ResourceSnapshot
  pub reporter_resource : ReporterResourceSnapshot
  pub reporter_representation : Option ReporterRepresentationSnapshot
  pub common_representation : Option CommonRepresentationSnapshot

-- Resource.Serialize, whose error is always nil.
unfoldable pub serialize_resource : Time → Resource → Snapshots
serialize_resource now r = record {
  resource = record {
    id = r.id;
    resource_type = r.resource_type;
    common_version = r.common_version;
    last_common_version = r.last_common_version;
    consistency_token = r.consistency_token;
    created_at = (timestamps r.resource_report_events).0;
    updated_at = (timestamps r.resource_report_events).1;
  };
  reporter_resource = first_reporter_resource r.reporter_resources;
  reporter_representation = reporter_snapshot now r.resource_report_events r.resource_delete_events;
  common_representation = common_snapshot now r.resource_report_events;
}

-- DeserializeResourceEvent, whose other fields keep Go's zero value.
unfoldable pub deserialize_resource_event :
    Option ReporterRepresentationSnapshot
    → Option CommonRepresentationSnapshot
    → Time
    → Time
    → ResourceReportEvent
unfolding deserialize_reporter_data_representation deserialize_common_representation
deserialize_resource_event reporter common created updated = record {
  id = 0;
  resource_type = [];
  reporter_id = record { reporter_type = []; reporter_instance_id = [] };
  local_resource_id = [];
  api_href = [];
  console_href = none;
  reporter_representation = deserialize_reporter_data_representation reporter;
  common_representation = optional deserialize_common_representation common;
  created_at = created;
  updated_at = updated;
}

-- DeserializeResource, for a resource snapshot that is not nil.
unfoldable pub deserialize_resource :
    ResourceSnapshot
    → List ReporterResourceSnapshot
    → Option ReporterRepresentationSnapshot
    → Option CommonRepresentationSnapshot
    → Resource
unfolding deserialize_reporter_resource deserialize_resource_event
deserialize_resource s reporter_resources reporter common = record {
  id = s.id;
  resource_type = s.resource_type;
  common_version = s.common_version;
  last_common_version = s.last_common_version;
  consistency_token = s.consistency_token;
  reporter_resources = map deserialize_reporter_resource reporter_resources;
  resource_report_events =
      deserialize_resource_event reporter common s.created_at s.updated_at ∷ [];
  resource_delete_events = [];
}
