-- ===== src/Model/Resource/Creation.antt =====
-- What NewResource makes.
use inventory_api.Base.{
  ℕ, ◌≡◌, refl, sym, ap, ◌∙◌, inr, true, false, Option, none, some, [], ◌∷◌, arith, CaseTables,
  equal_fold, ==_refl, list_eq, nat_eq, Text, map, is_some, ok, ok->>=, find_first, if◌then◌else◌,
}
use inventory_api.Model.Values.{Time, Uuid}
use inventory_api.Model.ReporterResource.{
  ReporterResource, ReporterResourceKey, new_reporter_resource,
}
use inventory_api.Model.Events.{
  ResourceReportEvent, current_common_version, current_reporter_representation_version,
  set_timestamps,
}
use inventory_api.Model.Resource.Versions.{IsVersioned}
use inventory_api.Model.Resource.Reports.{
  current_common_version-report_event_of, report_event_of_parts,
}
use inventory_api.Model.Resource.{
  Resource, Report, is_given, fill_reporter_data, new_resource, report_event_of,
  initial_common_version, matches_key, find_reporter_resource_to_update_by_key, reporter_part,
}

equal_fold_refl : ⦃t : CaseTables⦄ (s : Text) → equal_fold s s ≡ true
unfolding equal_fold
equal_fold_refl ⦃t⦄ s = ==_refl (map t.fold s)

pub matches_key_refl : ⦃t : CaseTables⦄ (key : ReporterResourceKey) → matches_key key key ≡ true
unfolding matches_key
matches_key_refl key = ground (
  arith,
  equal_fold_refl key.local_resource_id,
  equal_fold_refl key.resource_type,
  equal_fold_refl key.reporter.reporter_type,
  equal_fold_refl key.reporter.reporter_instance_id,
)

-- The version that NewResource gives the common data of a report.
abbrev first_version : Report → Option ℕ
first_version p = if is_given p.common_data then some initial_common_version else none

module _ (id reporter_resource_id : Uuid) (key : ReporterResourceKey) (report : Report)
    (now later : Time) where
  abbrev filled : Report
  filled = fill_reporter_data report

  abbrev pub created_reporter_resource : ReporterResource
  created_reporter_resource =
      new_reporter_resource reporter_resource_id key id filled.api_href filled.console_href now

  pub new_resource-ok :
      (r : Resource)
      → new_resource id reporter_resource_id key report now later ≡ ok r
      → (e : ResourceReportEvent) × (report_event_of created_reporter_resource key
            (first_version filled)
            filled
          ≡ ok e)
        × (r.common_version ≡ first_version filled)
        × (r.last_common_version ≡ first_version filled)
        × (r.reporter_resources ≡ created_reporter_resource ∷ [])
        × (r.resource_report_events ≡ set_timestamps later later e ∷ [])
  unfolding new_resource
  new_resource-ok r h =
      let (e, f, made) =
        ok->>= (report_event_of created_reporter_resource key (first_version filled) filled) _
          (sym h) in
      (e, made, ground arith, ground arith, ground arith, ground arith)

  is_some-first_version : is_some (first_version filled) ≡ is_given filled.common_data
  is_some-first_version = ground arith

  -- The common data are as they were given.
  is_given-filled : is_given filled.common_data ≡ is_given report.common_data
  is_given-filled = ground arith

  filled_reporter_data :
      (e : ResourceReportEvent)
      → report_event_of created_reporter_resource key (first_version filled) filled ≡ ok e
      → is_some filled.reporter_data ≡ true
  unfolding report_event_of
  filled_reporter_data e h = ground arith

  current_reporter_version :
      (e : ResourceReportEvent)
      → report_event_of created_reporter_resource key (first_version filled) filled ≡ ok e
      → current_reporter_representation_version e ≡ some 0
  unfolding reporter_part current_reporter_representation_version new_reporter_resource
  current_reporter_version e h = ground (
    arith,
    filled_reporter_data e h,
    (report_event_of_parts created_reporter_resource key (first_version filled) filled e h).0,
  )

  found-created :
      ⦃t : CaseTables⦄ (r : Resource)
      → r.reporter_resources ≡ created_reporter_resource ∷ []
      → find_reporter_resource_to_update_by_key key r ≡ some created_reporter_resource
  unfolding find_reporter_resource_to_update_by_key find_first new_reporter_resource
  found-created r h = rw (h, matches_key_refl key) refl

-- A resource that NewResource makes: its counters are in step, and it has a common version exactly if
-- the report has common data; the key leads to a reporter resource that is alive, at version 0 of
-- generation 0; and there is one report event, which shows the version of the common data and version
-- 0 of the reporter data.
pub find-new_resource :
    ⦃t : CaseTables⦄ (id reporter_resource_id : Uuid) (key : ReporterResourceKey) (report : Report)
    (now later : Time) (r : Resource)
    → new_resource id reporter_resource_id key report now later ≡ ok r
    → IsVersioned r
      × (is_some r.common_version ≡ is_given report.common_data)
      × ((rr : ReporterResource) × (find_reporter_resource_to_update_by_key key r ≡ some rr)
          × (rr.tombstone ≡ false)
          × (rr.generation ≡ 0)
          × (rr.representation_version ≡ 0))
      × ((e : ResourceReportEvent) × (r.resource_report_events ≡ e ∷ [])
          × (current_common_version e ≡ r.common_version)
          × (current_reporter_representation_version e ≡ some 0))
unfolding new_reporter_resource set_timestamps current_common_version
    current_reporter_representation_version
find-new_resource id reporter_resource_id key report now later r h =
    let (e, made, common, last, rrs, events) =
      new_resource-ok id reporter_resource_id key report now later r h in
    let rr = created_reporter_resource id reporter_resource_id key report now later in
    let p = fill_reporter_data report in
    let has = is_some-first_version id reporter_resource_id key report now later in
    (
      inr (common ∙ sym last),
      ap is_some common ∙ has ∙ is_given-filled id reporter_resource_id key report now later,
      (rr, found-created id reporter_resource_id key report now later r rrs, refl, refl, refl),
      (
        set_timestamps later later e,
        events,
        current_common_version-report_event_of rr key (first_version p) p e made has ∙ sym common,
        current_reporter_version id reporter_resource_id key report now later e made,
      ),
    )
