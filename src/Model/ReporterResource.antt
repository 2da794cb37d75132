-- ===== src/Model/ReporterResource.antt =====
-- internal/biz/model/reporter_resource.go: what one reporter says of a resource. Its lifecycle is a
-- sequence of versions in generations; a tombstone ends a generation.
use inventory_api.Base.{ℕ, Bool, true, false, Option, Text, if◌then◌else◌}
use inventory_api.Model.Values.{Time, Uuid, increment}
use inventory_api.Model.Representation.{ReporterId}

pub record ReporterResourceKey : Type 0 where
  pub local_resource_id : Text
  pub resource_type : Text
  pub reporter : ReporterId

pub record ReporterResource : Type 0 where
  pub id : Uuid
  pub key : ReporterResourceKey
  pub resource_id : Uuid
  pub api_href : Text
  pub console_href : Option Text
  pub representation_version : ℕ
  pub generation : ℕ
  pub tombstone : Bool
  pub created_at : Time
  pub updated_at : Time

abbrev pub initial_reporter_representation_version : ℕ
initial_reporter_representation_version = 0

abbrev pub initial_generation : ℕ
initial_generation = 0

unfoldable pub new_reporter_resource_key : Text → Text → Text → Text → ReporterResourceKey
new_reporter_resource_key local_resource_id resource_type reporter_type reporter_instance_id =
    record {
      local_resource_id = local_resource_id;
      resource_type = resource_type;
      reporter = record {
        reporter_type = reporter_type;
        reporter_instance_id = reporter_instance_id;
      };
    }

unfoldable pub new_reporter_resource :
    Uuid → ReporterResourceKey → Uuid → Text → Option Text → Time → ReporterResource
new_reporter_resource id key resource_id api_href console_href now = record {
  id = id;
  key = key;
  resource_id = resource_id;
  api_href = api_href;
  console_href = console_href;
  representation_version = initial_reporter_representation_version;
  generation = initial_generation;
  tombstone = false;
  created_at = now;
  updated_at = now;
}

unfoldable pub start_new_generation : ReporterResource → ReporterResource
unfolding increment
start_new_generation rr = record rr {
  tombstone = false;
  generation = increment rr.generation;
  representation_version = initial_reporter_representation_version;
}

-- ReporterResource.Update
unfoldable pub update_reporter_resource :
    Text → Option Text → Time → ReporterResource → ReporterResource
unfolding start_new_generation increment
update_reporter_resource api_href console_href now rr =
    let next = record rr {
      api_href = api_href;
      console_href = console_href;
      representation_version = increment rr.representation_version;
      updated_at = now;
    } in
    if next.tombstone then start_new_generation next else next

-- ReporterResource.Delete
unfoldable pub delete_reporter_resource : Time → ReporterResource → ReporterResource
unfolding increment
delete_reporter_resource now rr = record rr {
  representation_version = increment rr.representation_version;
  tombstone = true;
  updated_at = now;
}
