-- ===== src/Model/Events.antt =====
-- internal/biz/model/resource_report_event.go and resource_delete_event.go.
use inventory_api.Base.{ℕ, Option, none, some, Text, ok, err}
use inventory_api.Model.Values.{Fallible, Time, Uuid, no_representation_provided}
use inventory_api.Model.Representation.{ReporterId, ReporterRepresentation, CommonRepresentation}
use inventory_api.Model.ReporterResource.{ReporterResourceKey}

pub record ResourceReportEvent : Type 0 where
  pub id : Uuid
  pub resource_type : Text
  pub reporter_id : ReporterId
  pub local_resource_id : Text
  pub api_href : Text
  pub console_href : Option Text
  pub reporter_representation : Option ReporterRepresentation
  pub common_representation : Option CommonRepresentation
  pub created_at : Time
  pub updated_at : Time

pub record ResourceDeleteEvent : Type 0 where
  pub id : Uuid
  pub resource_type : Text
  pub reporter_id : ReporterId
  pub local_resource_id : Text
  pub reporter_representation : ReporterRepresentation
  pub created_at : Time
  pub updated_at : Time

report_event :
    Uuid
    → ReporterResourceKey
    → Text
    → Option Text
    → Option ReporterRepresentation
    → Option CommonRepresentation
    → ResourceReportEvent
report_event id key api_href console_href reporter common = record {
  id = id;
  resource_type = key.resource_type;
  reporter_id = key.reporter;
  local_resource_id = key.local_resource_id;
  api_href = api_href;
  console_href = console_href;
  reporter_representation = reporter;
  common_representation = common;
  created_at = 0;
  updated_at = 0;
}

-- NewResourceReportEvent: one of the two representations has to be there.
unfoldable pub new_resource_report_event :
    Uuid
    → ReporterResourceKey
    → Text
    → Option Text
    → Option ReporterRepresentation
    → Option CommonRepresentation
    → Fallible ResourceReportEvent
unfolding report_event
new_resource_report_event id key api_href console_href none none = err no_representation_provided
new_resource_report_event id key api_href console_href reporter common =
    ok (report_event id key api_href console_href reporter common)

unfoldable pub new_resource_delete_event :
    Uuid → ReporterResourceKey → ReporterRepresentation → ResourceDeleteEvent
new_resource_delete_event id key reporter = record {
  id = id;
  resource_type = key.resource_type;
  reporter_id = key.reporter;
  local_resource_id = key.local_resource_id;
  reporter_representation = reporter;
  created_at = 0;
  updated_at = 0;
}

unfoldable pub set_timestamps : Time → Time → ResourceReportEvent → ResourceReportEvent
set_timestamps created updated e = record e { created_at = created; updated_at = updated }

-- nil tells the consumer that there is no common representation to look up.
unfoldable pub current_common_version : ResourceReportEvent → Option ℕ
current_common_version e = elim e.common_representation [ none ↦ none | some cr ↦ some cr.version ]

unfoldable pub current_reporter_representation_version : ResourceReportEvent → Option ℕ
current_reporter_representation_version e = elim e.reporter_representation [
  | none ↦ none
  | some rr ↦ some rr.version
]
