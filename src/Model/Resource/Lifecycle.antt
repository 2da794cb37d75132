-- ===== src/Model/Resource/Lifecycle.antt =====
-- What Update and Delete of the aggregate do to the reporter resource at the key.
use inventory_api.Base.{
  ◌+◌, ◌<◌, ◌≡◌, sym, ap, ◌∙◌, ◌⊎◌, inl, inr, false, Option, none, some, [], ◌∷◌, arith, CaseTables,
  find_first, find_first-holds, find_first-modify_first, Option-cases, Text, Result-cases, ok,
}
use inventory_api.Model.Values.{Fallible, Time, uint_mod}
use inventory_api.Model.ReporterResource.{
  ReporterResource, ReporterResourceKey, update_reporter_resource, delete_reporter_resource,
}
use inventory_api.Model.Events.{ResourceReportEvent, set_timestamps}
use inventory_api.Model.Resource.{
  Resource, Report, matches_key, is_at, find_reporter_resource_to_update_by_key, write_through,
  report_on, update_resource, advance_common_version, report_event_of, created_at,
}

-- The order of the representations of one reporter resource: by generation, then by version.
abbrev pub IsBefore : ReporterResource → ReporterResource → Type 0
IsBefore a b =
    (a.generation < b.generation)
    ⊎ ((a.generation ≡ b.generation) × (a.representation_version < b.representation_version))

abbrev pub HasRoom : ReporterResource → Type 0
HasRoom rr = (rr.generation + 1 < uint_mod) × (rr.representation_version + 1 < uint_mod)

pub update_reporter_resource-IsBefore :
    (href : Text) (console : Option Text) (now : Time) (rr : ReporterResource)
    → HasRoom rr
    → IsBefore rr (update_reporter_resource href console now rr)
unfolding update_reporter_resource
update_reporter_resource-IsBefore href console now rr h = ground arith

pub delete_reporter_resource-IsBefore :
    (now : Time) (rr : ReporterResource)
    → HasRoom rr
    → IsBefore rr (delete_reporter_resource now rr)
unfolding delete_reporter_resource
delete_reporter_resource-IsBefore now rr h = ground arith

-- The state of a reporter resource that a report leaves: alive, with its identity kept, and in a
-- new generation exactly if it was a tombstone.
pub update_reporter_resource_state :
    (href : Text) (console : Option Text) (now : Time) (rr : ReporterResource)
    → let next = update_reporter_resource href console now rr in
      (next.tombstone ≡ false)
      × (next.key ≡ rr.key)
      × (next.id ≡ rr.id)
      × (next.resource_id ≡ rr.resource_id)
unfolding update_reporter_resource
update_reporter_resource_state href console now rr = ground arith

module _ ⦃t : CaseTables⦄ (key : ReporterResourceKey) (r : Resource) where
  -- A search for the key finds what was written through it, if the write keeps the stored key.
  pub find-write_through :
      (f : ReporterResource → ReporterResource) (rr : ReporterResource)
      → find_reporter_resource_to_update_by_key key r ≡ some rr
      → (f rr).key ≡ rr.key
      → find_reporter_resource_to_update_by_key key (write_through key f r) ≡ some (f rr)
  unfolding find_reporter_resource_to_update_by_key write_through
  find-write_through f rr h k =
      find_first-modify_first (is_at key) f r.reporter_resources rr h
        (ap (matches_key key) k ∙ find_first-holds (is_at key) r.reporter_resources rr h)

  -- The event that Update makes of the reporter resource that it found.
  abbrev pub updated_event : Report → Time → ReporterResource → Fallible ResourceReportEvent
  updated_event p now rr =
      report_event_of (update_reporter_resource p.api_href p.console_href now rr) key
        (advance_common_version p r).common_version p

  -- What a successful Update did.
  pub record IsUpdated (p : Report) (now later : Time) (r' : Resource) : Type 0 where
    pub old : ReporterResource
    pub event : ResourceReportEvent
    pub found : find_reporter_resource_to_update_by_key key r ≡ some old
    pub made : updated_event p now old ≡ ok event
    pub result :
        r'
        ≡ record (write_through key
            (update_reporter_resource p.api_href p.console_href now)
            (advance_common_version p r)) {
              resource_report_events = set_timestamps (created_at r) later event ∷ [];
            }

  pub reporter_resources-advance :
      (p : Report) → (advance_common_version p r).reporter_resources ≡ r.reporter_resources
  unfolding advance_common_version
  reporter_resources-advance p = ground arith

  created_at-advance : (p : Report) → created_at (advance_common_version p r) ≡ created_at r
  unfolding advance_common_version created_at
  created_at-advance p = ground arith

  found_before :
      (p : Report)
      → find_reporter_resource_to_update_by_key key (advance_common_version p r)
        ≡ find_reporter_resource_to_update_by_key key r
  unfolding find_reporter_resource_to_update_by_key
  found_before p = ap (find_first (is_at key)) (reporter_resources-advance p)

  module _ (p : Report) (now later : Time) where
    report_on-IsUpdated :
        (rr : ReporterResource)
        → find_reporter_resource_to_update_by_key key r ≡ some rr
        → (report_on key p now later (advance_common_version p r) rr).1 ≡ none
        → IsUpdated p now later (report_on key p now later (advance_common_version p r) rr).0
    unfolding report_on
    report_on-IsUpdated rr f h = elim (Result-cases (updated_event p now rr)) [
      | inl (event, e) ↦ record {
        old = rr;
        event = event;
        found = f;
        made = e;
        result = rw (e, report_on) (rw (created_at-advance p));
      }
      | inr (x, e) ↦ cc (rw (e, report_on) at h)
    ]

    -- A successful Update found the reporter resource and made its event.
    pub update_resource-IsUpdated :
        (update_resource key p now later r).1 ≡ none
        → IsUpdated p now later (update_resource key p now later r).0
    unfolding update_resource
    update_resource-IsUpdated h =
        elim (Option-cases
          (find_reporter_resource_to_update_by_key key (advance_common_version p r))) [
            | inl e ↦ cc (rw (e, update_resource) at h)
            | inr (rr, e) ↦
                rw (e, update_resource)
                  (report_on-IsUpdated rr (sym (found_before p) ∙ e) (rw (e, update_resource) at h))
          ]

module _ ⦃t : CaseTables⦄ (key : ReporterResourceKey) (r : Resource) where
  pub reporter_resources-IsUpdated :
      {p : Report} {now later : Time} {r' : Resource} (u : IsUpdated key r p now later r')
      → find_reporter_resource_to_update_by_key key r'
        ≡ some (update_reporter_resource p.api_href p.console_href now u.old)
  unfolding find_reporter_resource_to_update_by_key
  reporter_resources-IsUpdated {p} {now} u = rw u.result (
      find-write_through key (advance_common_version p r) _ u.old (found_before key r p ∙ u.found)
        (update_reporter_resource_state p.api_href p.console_href now u.old).1)
