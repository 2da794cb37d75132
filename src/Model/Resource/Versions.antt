-- ===== src/Model/Resource/Versions.antt =====
-- The version counter of the common representation under Update.
use inventory_api.Base.{
  ℕ, ◌+◌, ◌<◌, ◌≡◌, ◌⊎◌, inl, inr, Bool, true, false, Option, none, some, [], ◌∷◌, arith,
  CaseTables, is_some, sym, ap,
}
use inventory_api.Model.Values.{Time, increment, uint_mod}
use inventory_api.Model.Events.{ResourceReportEvent, current_common_version, set_timestamps}
use inventory_api.Model.Resource.Lifecycle.{update_resource-IsUpdated}
use inventory_api.Model.Resource.Reports.{current_common_version-report_event_of}
use inventory_api.Model.Resource.{
  Resource, Report, is_given, next_common_version, advance_common_version, update_resource,
  report_on, initial_common_version, write_through,
}
use inventory_api.Model.ReporterResource.{ReporterResourceKey}

-- The current version is the last one that was used, or it was dropped.
abbrev pub IsVersioned : Resource → Type 0
IsVersioned r = (r.common_version ≡ none) ⊎ (r.common_version ≡ r.last_common_version)

-- A version that follows the last one that was used; the first is 0.
abbrev pub IsNext : Option ℕ → Option ℕ → Type 0
IsNext none last = ⊥
IsNext (some v) none = v ≡ initial_common_version
IsNext (some v) (some last) = v ≡ last + 1

abbrev pub HasVersionRoom : Option ℕ → Type 0
HasVersionRoom none = Unit {0}
HasVersionRoom (some v) = v + 1 < uint_mod

pub next_common_version-IsNext :
    (r : Resource)
    → IsVersioned r
    → HasVersionRoom r.last_common_version
    → IsNext (next_common_version r) r.last_common_version
unfolding next_common_version increment
next_common_version-IsNext r h k = ground arith

-- What Update does to the two counters, from the last version used before: with common data both
-- take the next version; without, the current version is dropped and the last stays.
abbrev pub Advances : Bool → Option ℕ → Option ℕ → Option ℕ → Type 0
Advances true last common' last' = IsNext common' last × (last' ≡ common')
Advances false last common' last' = (common' ≡ none) × (last' ≡ last)

module _ (p : Report) (r : Resource) where
  is_some-advance : is_some (advance_common_version p r).common_version ≡ is_given p.common_data
  unfolding advance_common_version next_common_version
  is_some-advance = ground arith

  advance-Advances :
      IsVersioned r
      → HasVersionRoom r.last_common_version
      → Advances
          (is_given p.common_data)
          r.last_common_version
          (advance_common_version p r).common_version
          (advance_common_version p r).last_common_version
  unfolding advance_common_version
  advance-Advances h k = ground (arith, next_common_version-IsNext r h k)

module _ ⦃t : CaseTables⦄ (key : ReporterResourceKey) (p : Report) (now later : Time)
    (r : Resource) where
  common_version-update_resource :
      (update_resource key p now later r).0.common_version
      ≡ (advance_common_version p r).common_version
  unfolding update_resource report_on write_through
  common_version-update_resource = ground arith

  last_common_version-update_resource :
      (update_resource key p now later r).0.last_common_version
      ≡ (advance_common_version p r).last_common_version
  unfolding update_resource report_on write_through
  last_common_version-update_resource = ground arith

  -- From a resource whose current version is the last one used, or was dropped, and whose last
  -- version is not the highest uint, Update does to the counters what a new version calls for, also
  -- where it fails: common data take the version after the last one, 0 if there is none, and a report
  -- without common data drops the current version and keeps the last.
  pub update_resource-Advances :
      IsVersioned r
      → HasVersionRoom r.last_common_version
      → Advances
          (is_given p.common_data)
          r.last_common_version
          (update_resource key p now later r).0.common_version
          (update_resource key p now later r).0.last_common_version
  update_resource-Advances h k =
      rw (common_version-update_resource, last_common_version-update_resource)
        (advance-Advances p r h k)

  -- The event of a successful Update shows the consumer the version that the resource now has.
  pub current_common_version-update_resource :
      (e : ResourceReportEvent)
      → (update_resource key p now later r).1 ≡ none
      → (update_resource key p now later r).0.resource_report_events ≡ e ∷ []
      → current_common_version e ≡ (update_resource key p now later r).0.common_version
  unfolding current_common_version set_timestamps
  current_common_version-update_resource e h k =
      let u = update_resource-IsUpdated key r p now later h in
      let v =
        current_common_version-report_event_of _ key _ p u.event u.made (is_some-advance p r) in
      rw common_version-update_resource
        (ground (arith, v, ap (λ (q : Resource). q.resource_report_events) u.result))

-- Both halves of `Advances` leave the counters in step.
pub Advances-IsVersioned :
    (b : Bool) (last common' last' : Option ℕ)
    → Advances b last common' last'
    → (common' ≡ none) ⊎ (common' ≡ last')
Advances-IsVersioned true last common' last' h = inr (sym h.1)
Advances-IsVersioned false last common' last' h = inl h.0
