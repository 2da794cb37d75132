-- ===== src/Tests/Data.antt =====
-- A host that one reporter reports in two workspaces.
use inventory_api.Base.{ℕ, false, Option, none, some, [], ◌∷◌, Text, codes}
use inventory_api.Model.Representation.{Representation, str}
use inventory_api.Model.ReporterResource.{ReporterResourceKey, ReporterResource}
use inventory_api.Model.Representations.{Representations}
use inventory_api.Model.Resource.{Resource, Report}

abbrev pub host : ReporterResourceKey
host = record {
  local_resource_id = codes "host-1";
  resource_type = codes "host";
  reporter = record { reporter_type = codes "hbi"; reporter_instance_id = codes "one" };
}

abbrev pub in_workspace : Text → Representation
in_workspace w = some ((codes "workspace_id", str w) ∷ [])

abbrev pub host_report : Report
host_report = record {
  api_href = codes "https://hosts/1";
  console_href = none;
  reporter_version = none;
  reporter_data = some (some ((codes "os", str (codes "linux")) ∷ []));
  common_data = some (in_workspace (codes "w1"));
  transaction_id = codes "tx";
}

-- A report without common data.
abbrev pub reporter_only : Report
reporter_only = record host_report { common_data = none }

abbrev pub alive_host : ReporterResource
alive_host = record {
  id = 2;
  key = host;
  resource_id = 1;
  api_href = codes "https://hosts/1";
  console_href = none;
  representation_version = 4;
  generation = 1;
  tombstone = false;
  created_at = 10;
  updated_at = 20;
}

-- The host after some reports, the last one without common data.
abbrev pub host_resource : Resource
host_resource = record {
  id = 1;
  resource_type = codes "host";
  common_version = none;
  last_common_version = some 3;
  consistency_token = [];
  reporter_resources = alive_host ∷ [];
  resource_report_events = [];
  resource_delete_events = [];
}

abbrev pub in_version : Text → ℕ → Option Representations
in_version w v = some (record {
  common_data = in_workspace w;
  common_version = some v;
  reporter_data = none;
  reporter_representation_version = none;
})
