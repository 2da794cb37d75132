-- ===== src/Model/Resource.antt =====
-- internal/biz/model/resource.go: the aggregate, with one version counter for the common
-- representation and one lifecycle for each reporter. A method on a pointer returns the resource as
-- it leaves it, also where it returns an error.
pub mod Creation
pub mod Lifecycle
pub mod Reports
pub mod Runs
pub mod Tombstones
pub mod Versions
use inventory_api.Base.{
  ℕ, Bool, true, false, ◌&&◌, ◌||◌, not, Option, none, some, List, [], ◌∷◌, nonempty, Text,
  equal_fold, CaseTables, find_first, modify_first, if◌then◌else◌, ok, err, ◌>>=◌,
}
use inventory_api.Model.Values.{
  Error, Fallible, Time, Uuid, increment, no_representation_provided, reporter_resource_not_found,
}
use inventory_api.Model.Representation.{
  ReporterRepresentation, CommonRepresentation, Representation, has_data, new_empty_representation,
  new_reporter_data_representation, new_reporter_delete_representation, new_common_representation,
}
use inventory_api.Model.ReporterResource.{
  ReporterResource, ReporterResourceKey, new_reporter_resource, update_reporter_resource,
  delete_reporter_resource,
}
use inventory_api.Model.Events.{
  ResourceReportEvent, ResourceDeleteEvent, new_resource_report_event, new_resource_delete_event,
  set_timestamps,
}

pub record Resource : Type 0 where
  pub id : Uuid
  pub resource_type : Text
  pub common_version : Option ℕ
  pub last_common_version : Option ℕ
  pub consistency_token : Text
  pub reporter_resources : List ReporterResource
  pub resource_report_events : List ResourceReportEvent
  pub resource_delete_events : List ResourceDeleteEvent

-- What a report says, next to the key: the arguments that NewResource and Update share.
pub record Report : Type 0 where
  pub api_href : Text
  pub console_href : Option Text
  pub reporter_version : Option Text
  pub reporter_data : Option Representation
  pub common_data : Option Representation
  pub transaction_id : Text

abbrev pub initial_common_version : ℕ
initial_common_version = 0

-- `data != nil && len(*data) > 0`
abbrev pub is_given : Option Representation → Bool
is_given none = false
is_given (some r) = has_data r

abbrev pub version_or_zero : Option ℕ → ℕ
version_or_zero none = 0
version_or_zero (some v) = v

-- The first `if` of resourceEventAndRepresentations.
unfoldable pub reporter_part :
    Uuid → ℕ → ℕ → Option ℕ → Report → Fallible (Option ReporterRepresentation)
unfolding new_reporter_data_representation
reporter_part id version generation common_version p = elim p.reporter_data [
  | none ↦ ok none
  | some content ↦ do
    rr ←
        new_reporter_data_representation id version generation content common_version
          p.reporter_version p.transaction_id
    ok (some rr)
]

-- And the second.
unfoldable pub common_part :
    Uuid → ReporterResourceKey → Option ℕ → Report → Fallible (Option CommonRepresentation)
unfolding new_common_representation
common_part resource_id key common_version p = elim p.common_data [
  | none ↦ ok none
  | some content ↦ do
    cr ←
        new_common_representation resource_id content (version_or_zero common_version)
          key.reporter.reporter_type key.reporter.reporter_instance_id p.transaction_id
    ok (some cr)
]

abbrev pub both_nil : Report → Bool
both_nil p = elim p.reporter_data [
  | some _ ↦ false
  | none ↦ elim p.common_data [ some _ ↦ false | none ↦ true ]
]

-- resourceEventAndRepresentations
unfoldable pub report_event_of :
    ReporterResource → ReporterResourceKey → Option ℕ → Report → Fallible ResourceReportEvent
report_event_of rr key common_version p = if both_nil p then err no_representation_provided else (do
  reporter ← reporter_part rr.id rr.representation_version rr.generation common_version p
  common ← common_part rr.resource_id key common_version p
  new_resource_report_event rr.resource_id key p.api_href p.console_href reporter common)

-- deleteEventAndRepresentations
unfoldable pub delete_event_of :
    ReporterResource → ReporterResourceKey → Fallible ResourceDeleteEvent
unfolding new_reporter_delete_representation new_resource_delete_event
delete_event_of rr key = do
  representation ← new_reporter_delete_representation rr.id rr.representation_version rr.generation
  ok (new_resource_delete_event rr.resource_id key representation)

-- NewResource gives a report with common data alone an empty reporter representation.
abbrev pub fill_reporter_data : Report → Report
fill_reporter_data p = elim p.reporter_data [
  | some _ ↦ p
  | none ↦ elim p.common_data [
    | none ↦ p
    | some _ ↦ record p { reporter_data = some new_empty_representation }
  ]
]

-- `now` and `later` are the two readings of the clock.
unfoldable pub new_resource :
    Uuid → Uuid → ReporterResourceKey → Report → Time → Time → Fallible Resource
new_resource id reporter_resource_id key report now later =
    let p = fill_reporter_data report in
    let version : Option ℕ = if is_given p.common_data then some initial_common_version else none in
    let rr = new_reporter_resource reporter_resource_id key id p.api_href p.console_href now in
    (do
      event ← report_event_of rr key version p
      ok (record {
        id = id;
        resource_type = key.resource_type;
        common_version = version;
        last_common_version = version;
        consistency_token = [];
        reporter_resources = rr ∷ [];
        resource_report_events = set_timestamps later later event ∷ [];
        resource_delete_events = [];
      }))

-- The version that Update takes for the common data of a report, if the report has any.
unfoldable pub next_common_version : Resource → Option ℕ
unfolding increment
next_common_version r = elim r.common_version [
  | some v ↦ some (increment v)
  | none ↦ elim r.last_common_version [
    | some v ↦ some (increment v)
    | none ↦ some initial_common_version
  ]
]

unfoldable pub advance_common_version : Report → Resource → Resource
unfolding next_common_version
advance_common_version p r =
    if is_given p.common_data
    then record r {
      common_version = next_common_version r;
      last_common_version = next_common_version r;
    }
    else record r { common_version = none }

-- GetTimestamps, for the creation time alone.
unfoldable pub created_at : Resource → Time
created_at r = elim r.resource_report_events [ [] ↦ 0 | e ∷ _ ↦ e.created_at ]

module _ ⦃t : CaseTables⦄ where
  -- The test of findReporterResourceToUpdateByKey: no instance id in the key matches every instance.
  unfoldable pub matches_key : ReporterResourceKey → ReporterResourceKey → Bool
  unfolding equal_fold
  matches_key key stored =
      equal_fold stored.local_resource_id key.local_resource_id
      && equal_fold stored.resource_type key.resource_type
      && equal_fold stored.reporter.reporter_type key.reporter.reporter_type
      && (not (nonempty key.reporter.reporter_instance_id)
          || equal_fold stored.reporter.reporter_instance_id key.reporter.reporter_instance_id)

  abbrev pub is_at : ReporterResourceKey → ReporterResource → Bool
  is_at key rr = matches_key key rr.key

  -- The pointer that it returns is the place of the first match.
  unfoldable pub find_reporter_resource_to_update_by_key :
      ReporterResourceKey → Resource → Option ReporterResource
  find_reporter_resource_to_update_by_key key r = find_first (is_at key) r.reporter_resources

  unfoldable pub write_through :
      ReporterResourceKey → (ReporterResource → ReporterResource) → Resource → Resource
  write_through key f r = record r {
    reporter_resources = modify_first (is_at key) f r.reporter_resources;
  }

  -- The part of Update below the search.
  unfoldable pub report_on :
      ReporterResourceKey
      → Report
      → Time
      → Time
      → Resource
      → ReporterResource
      → Resource × Option Error
  report_on key p now later r rr =
      let change = update_reporter_resource p.api_href p.console_href now in
      let r' = write_through key change r in
      elim (report_event_of (change rr) key r.common_version p) [
        | err e ↦ (r', some e)
        | ok event ↦ (
          record r' { resource_report_events = set_timestamps (created_at r) later event ∷ [] },
          none,
        )
      ]

  -- Resource.Update
  unfoldable pub update_resource :
      ReporterResourceKey → Report → Time → Time → Resource → Resource × Option Error
  update_resource key p now later r =
      let r' = advance_common_version p r in
      elim (find_reporter_resource_to_update_by_key key r') [
        | none ↦ (r', some reporter_resource_not_found)
        | some rr ↦ report_on key p now later r' rr
      ]

  -- The part of Delete below the search. A tombstone drops the operation.
  unfoldable pub delete_on :
      ReporterResourceKey → Time → Resource → ReporterResource → Resource × Option Error
  delete_on key now r rr =
      let r' = write_through key (delete_reporter_resource now) r in
      if rr.tombstone
      then (r, none)
      else elim (delete_event_of (delete_reporter_resource now rr) key) [
        | err e ↦ (r', some e)
        | ok event ↦ (record r' { resource_delete_events = event ∷ [] }, none)
      ]

  -- Resource.Delete
  unfoldable pub delete_resource : ReporterResourceKey → Time → Resource → Resource × Option Error
  delete_resource key now r = elim (find_reporter_resource_to_update_by_key key r) [
    | none ↦ (r, some reporter_resource_not_found)
    | some rr ↦ delete_on key now r rr
  ]
