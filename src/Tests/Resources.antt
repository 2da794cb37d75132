-- ===== src/Tests/Resources.antt =====
-- The properties of the aggregate at concrete resources.
use inventory_api.Base.{
  ◌≡◌, refl, inl, inr, Option, none, some, List, [], ◌∷◌, ascii, nat_eq, arith, Bool, true, false,
  ℕ, ◌+◌, length, Text, codes, IsDistinct, ok, Result, err, is_some,
}
use inventory_api.Model.ReporterResource.{ReporterResource}
use inventory_api.Model.Values.{increment, Error}
use inventory_api.Model.Events.{
  ResourceReportEvent, current_common_version, current_reporter_representation_version,
}
use inventory_api.Model.Resource.{
  Resource, new_resource, update_resource, delete_resource, find_reporter_resource_to_update_by_key,
}
use inventory_api.Model.Resource.Creation.{find-new_resource}
use inventory_api.Model.Resource.Versions.{update_resource-Advances, Advances, IsVersioned}
use inventory_api.Model.Resource.Tombstones.{
  delete_resource-delete_resource, update_resource-delete_resource,
}
use inventory_api.Model.Resource.Runs.{
  report, delete, Operation, Ascends, stored_versions, stored_versions-Ascends,
}
use inventory_api.Tests.Data.{host, host_report, reporter_only, host_resource}

abbrev operations : List Operation
operations =
    report host host_report 30 31
    ∷ delete host 40
    ∷ report host reporter_only 50 51
    ∷ report host host_report 60 61
    ∷ []

abbrev value_or : Resource → Result Error Resource → Resource
value_or d (ok r) = r
value_or d (err e) = d

abbrev no_event : ResourceReportEvent
no_event = record {
  id = 0;
  resource_type = [];
  reporter_id = host.reporter;
  local_resource_id = [];
  api_href = [];
  console_href = none;
  reporter_representation = none;
  common_representation = none;
  created_at = 0;
  updated_at = 0;
}

abbrev first_event : Resource → ResourceReportEvent
first_event r = elim r.resource_report_events [ [] ↦ no_event | e ∷ es ↦ e ]

stored_versions_run : stored_versions operations host_resource ≡ 4 ∷ 5 ∷ []
unfolding stored_versions update_resource delete_resource find_reporter_resource_to_update_by_key
    inventory_api.Base.find_first inventory_api.Model.Resource.advance_common_version
    inventory_api.Model.Resource.matches_key inventory_api.Base.list_beq
    inventory_api.Model.Resource.report_on inventory_api.Model.Resource.report_event_of
    inventory_api.Model.Resource.reporter_part
    inventory_api.Model.ReporterResource.update_reporter_resource
    inventory_api.Model.Resource.common_part inventory_api.Model.Events.new_resource_report_event
    inventory_api.Model.Resource.write_through inventory_api.Base.modify_first
    inventory_api.Model.Resource.delete_on inventory_api.Model.Resource.delete_event_of
    inventory_api.Model.ReporterResource.delete_reporter_resource
    inventory_api.Model.Events.set_timestamps
stored_versions_run = refl

stored_versions-Ascends_example : Ascends (some 3) (stored_versions operations host_resource)
stored_versions-Ascends_example =
    stored_versions-Ascends operations host_resource (inl refl) (omega arith)

update_resource-Advances_example :
    Advances true
      (some 3)
      (update_resource host host_report 30 31 host_resource).0.common_version
      (update_resource host host_report 30 31 host_resource).0.last_common_version
update_resource-Advances_example =
    update_resource-Advances host host_report 30 31 host_resource (inl refl) (omega arith)

pub updates : (update_resource host host_report 30 31 host_resource).1 ≡ none
unfolding update_resource find_reporter_resource_to_update_by_key inventory_api.Base.find_first
    inventory_api.Model.Resource.advance_common_version inventory_api.Model.Resource.matches_key
    inventory_api.Base.list_beq inventory_api.Model.Resource.report_on
    inventory_api.Model.Resource.report_event_of inventory_api.Model.Resource.reporter_part
    inventory_api.Model.ReporterResource.update_reporter_resource
    inventory_api.Model.Resource.common_part inventory_api.Model.Events.new_resource_report_event
updates = refl

deletes : (delete_resource host 40 host_resource).1 ≡ none
unfolding delete_resource find_reporter_resource_to_update_by_key inventory_api.Base.find_first
    inventory_api.Model.Resource.matches_key inventory_api.Base.list_beq
    inventory_api.Model.Resource.delete_on inventory_api.Model.Resource.delete_event_of
    inventory_api.Model.ReporterResource.delete_reporter_resource
deletes = refl

revives :
    (update_resource host host_report 50 51 (delete_resource host 40 host_resource).0).1 ≡ none
unfolding update_resource delete_resource find_reporter_resource_to_update_by_key
    inventory_api.Base.find_first inventory_api.Model.Resource.advance_common_version
    inventory_api.Model.Resource.matches_key inventory_api.Base.list_beq
    inventory_api.Model.Resource.delete_on inventory_api.Model.Resource.delete_event_of
    inventory_api.Model.ReporterResource.delete_reporter_resource
    inventory_api.Model.Resource.write_through inventory_api.Base.modify_first
    inventory_api.Model.Resource.report_on inventory_api.Model.Resource.report_event_of
    inventory_api.Model.Resource.reporter_part
    inventory_api.Model.ReporterResource.update_reporter_resource
    inventory_api.Model.Resource.common_part inventory_api.Model.Events.new_resource_report_event
revives = refl

delete_resource-delete_resource_example :
    delete_resource host 41 (delete_resource host 40 host_resource).0
    ≡ ((delete_resource host 40 host_resource).0, none)
delete_resource-delete_resource_example =
    delete_resource-delete_resource host host_resource 40 41 deletes

update_resource-delete_resource_example :
    (old new : ReporterResource) × (find_reporter_resource_to_update_by_key host
        (delete_resource host 40 host_resource).0
      ≡ some old)
    × (find_reporter_resource_to_update_by_key host
          (update_resource host host_report 50 51 (delete_resource host 40 host_resource).0).0
        ≡ some new)
    × (new.tombstone ≡ false)
    × (new.generation ≡ increment old.generation)
    × (new.representation_version ≡ 0)
update_resource-delete_resource_example =
    update_resource-delete_resource host host_resource host_report 40 50 51 deletes revives

abbrev created_host : Resource
created_host = value_or host_resource (new_resource 1 2 host host_report 5 6)

creates : new_resource 1 2 host host_report 5 6 ≡ ok created_host
unfolding new_resource inventory_api.Model.Resource.report_event_of
    inventory_api.Model.Resource.reporter_part
    inventory_api.Model.ReporterResource.new_reporter_resource
    inventory_api.Model.Resource.common_part inventory_api.Model.Events.new_resource_report_event
creates = refl

find-new_resource_example :
    IsVersioned created_host
    × (is_some created_host.common_version ≡ true)
    × ((rr : ReporterResource) × (find_reporter_resource_to_update_by_key host created_host
          ≡ some rr)
        × (rr.tombstone ≡ false)
        × (rr.generation ≡ 0)
        × (rr.representation_version ≡ 0))
    × ((e : ResourceReportEvent) × (created_host.resource_report_events ≡ e ∷ [])
        × (current_common_version e ≡ created_host.common_version)
        × (current_reporter_representation_version e ≡ some 0))
find-new_resource_example = find-new_resource 1 2 host host_report 5 6 created_host creates

abbrev pub updated_event : ResourceReportEvent
updated_event = first_event (update_resource host host_report 30 31 host_resource).0
