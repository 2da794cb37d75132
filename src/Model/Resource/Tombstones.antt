-- ===== src/Model/Resource/Tombstones.antt =====
-- Deleting, deleting again, and reporting what was deleted.
use inventory_api.Base.{
  ◌≡◌, refl, ap, ◌⊎◌, inl, inr, true, false, Option, none, some, [], ◌∷◌, arith, CaseTables,
  Option-cases, Bool-cases, Text, Result-cases, ok,
}
use inventory_api.Model.Values.{Error, Time, increment}
use inventory_api.Model.ReporterResource.{
  ReporterResource, ReporterResourceKey, update_reporter_resource, delete_reporter_resource,
}
use inventory_api.Model.Events.{ResourceDeleteEvent}
use inventory_api.Model.Resource.{
  Resource, Report, find_reporter_resource_to_update_by_key, write_through, update_resource,
  delete_on, delete_resource, delete_event_of,
}
use inventory_api.Model.Resource.Lifecycle.{
  IsBefore, HasRoom, find-write_through, update_resource-IsUpdated, reporter_resources-IsUpdated,
  update_reporter_resource-IsBefore,
}

-- What a report does to a reporter resource: it starts a new generation exactly if that was a
-- tombstone, and takes the next version otherwise.
pub record Reported (old new : ReporterResource) : Type 0 where
  pub alive : new.tombstone ≡ false
  pub same_key : new.key ≡ old.key
  pub same_id : new.id ≡ old.id
  pub restarts :
      old.tombstone ≡ true
      → (new.generation ≡ increment old.generation) × (new.representation_version ≡ 0)
  pub continues :
      old.tombstone ≡ false
      → (new.generation ≡ old.generation)
        × (new.representation_version ≡ increment old.representation_version)
  pub moves_on : HasRoom old → IsBefore old new

pub update_reporter_resource-Reported :
    (href : Text) (console : Option Text) (now : Time) (rr : ReporterResource)
    → Reported rr (update_reporter_resource href console now rr)
update_reporter_resource-Reported href console now rr = record {
  alive = unfold update_reporter_resource in ground arith;
  same_key = unfold update_reporter_resource in ground arith;
  same_id = unfold update_reporter_resource in ground arith;
  restarts = λ h. unfold update_reporter_resource in ground arith;
  continues = λ h. unfold update_reporter_resource in ground arith;
  moves_on = update_reporter_resource-IsBefore href console now rr;
}

module _ ⦃t : CaseTables⦄ (key : ReporterResourceKey) (r : Resource) where
  -- After a successful Update the key leads to the reporter resource that it led to before, alive,
  -- moved on by one report.
  pub update_resource-Reported :
      (p : Report) (now later : Time)
      → (update_resource key p now later r).1 ≡ none
      → (old new : ReporterResource) × (find_reporter_resource_to_update_by_key key r ≡ some old)
        × (find_reporter_resource_to_update_by_key key (update_resource key p now later r).0
            ≡ some new)
        × Reported old new
  update_resource-Reported p now later h =
      let u = update_resource-IsUpdated key r p now later h in
      (
        u.old,
        update_reporter_resource p.api_href p.console_href now u.old,
        u.found,
        reporter_resources-IsUpdated key r u,
        update_reporter_resource-Reported p.api_href p.console_href now u.old,
      )

  -- A tombstone drops the operation.
  delete_on_tombstone :
      (now : Time) (rr : ReporterResource)
      → rr.tombstone ≡ true
      → delete_on key now r rr ≡ (r, none)
  unfolding delete_on
  delete_on_tombstone now rr h = ground arith

  delete_resource_tombstone :
      (now : Time) (rr : ReporterResource)
      → find_reporter_resource_to_update_by_key key r ≡ some rr
      → rr.tombstone ≡ true
      → delete_resource key now r ≡ (r, none)
  unfolding delete_resource
  delete_resource_tombstone now rr f h = rw (f, delete_resource) (delete_on_tombstone now rr h)

  -- What a successful Delete of a reporter resource that is alive did: one delete event, and a write
  -- of the tombstone through the key.
  pub record IsDeleted (now : Time) (rr : ReporterResource) (r' : Resource) : Type 0 where
    pub event : ResourceDeleteEvent
    pub made : delete_event_of (delete_reporter_resource now rr) key ≡ ok event
    pub result : r' ≡ record (write_through key (delete_reporter_resource now) r) {
      resource_delete_events = event ∷ [];
    }

  delete_on-IsDeleted :
      (now : Time) (rr : ReporterResource)
      → rr.tombstone ≡ false
      → (delete_on key now r rr).1 ≡ none
      → IsDeleted now rr (delete_on key now r rr).0
  unfolding delete_on
  delete_on-IsDeleted now rr k h =
      elim (Result-cases (delete_event_of (delete_reporter_resource now rr) key)) [
        | inl (event, e) ↦ record { event = event; made = e; result = rw (e, delete_on) (simp k) }
        | inr (x, e) ↦ cc (rw (e, delete_on, k) at h)
      ]

module _ ⦃t : CaseTables⦄ (key : ReporterResourceKey) (r : Resource) where
  find-IsDeleted :
      (now : Time) (rr : ReporterResource) (r' : Resource)
      → find_reporter_resource_to_update_by_key key r ≡ some rr
      → IsDeleted key r now rr r'
      → find_reporter_resource_to_update_by_key key r' ≡ some (delete_reporter_resource now rr)
  unfolding find_reporter_resource_to_update_by_key
  find-IsDeleted now rr r' f d = rw d.result (
      find-write_through key r (delete_reporter_resource now) rr f
        (unfold delete_reporter_resource in refl))

  pub delete_resource_cases :
      (now : Time)
      → (delete_resource key now r).1 ≡ none
      → (rr : ReporterResource) × (find_reporter_resource_to_update_by_key key r ≡ some rr)
        × (((rr.tombstone ≡ true) × ((delete_resource key now r).0 ≡ r))
            ⊎ ((rr.tombstone ≡ false) × IsDeleted key r now rr (delete_resource key now r).0))
  unfolding delete_resource
  delete_resource_cases now h =
      elim (Option-cases (find_reporter_resource_to_update_by_key key r)) [
        | inl e ↦ cc (rw (e, delete_resource) at h)
        | inr (rr, e) ↦ (
          rr,
          e,
          elim (Bool-cases rr.tombstone) [
            | inl k ↦ inl (
              k,
              rw (e, delete_resource)
                  (ap (λ (q : Resource × Option Error). q.0) (delete_on_tombstone key r now rr k)),
            )
            | inr k ↦ inr (
              k,
              rw (e, delete_resource)
                  (delete_on-IsDeleted key r now rr k (rw (e, delete_resource) at h)),
            )
          ],
        )
      ]

  -- A Delete that succeeds leaves a tombstone at the key.
  pub tombstone-delete_resource :
      (now : Time)
      → (delete_resource key now r).1 ≡ none
      → (rr : ReporterResource) × (find_reporter_resource_to_update_by_key key
            (delete_resource key now r).0
          ≡ some rr)
        × (rr.tombstone ≡ true)
  tombstone-delete_resource now h =
      let (rr, f, c) = delete_resource_cases now h in
      elim c [
        | inl (k, e) ↦ (rr, rw e f, k)
        | inr (k, d) ↦ (
          delete_reporter_resource now rr,
          find-IsDeleted now rr (delete_resource key now r).0 f d,
          unfold delete_reporter_resource in refl,
        )
      ]

-- Delete is idempotent: after a Delete that succeeds, another one of the same key, at any time,
-- succeeds and changes nothing.
pub delete_resource-delete_resource :
    ⦃t : CaseTables⦄ (key : ReporterResourceKey) (r : Resource) (now later : Time)
    → (delete_resource key now r).1 ≡ none
    → delete_resource key later (delete_resource key now r).0
      ≡ ((delete_resource key now r).0, none)
delete_resource-delete_resource key r now later h =
    let (rr, f, k) = tombstone-delete_resource key r now h in
    delete_resource_tombstone key (delete_resource key now r).0 later rr f k

-- A report of a deleted resource revives it: after a Delete and an Update of the same key that
-- succeed, the key leads to a reporter resource that is alive, at version 0 of a new generation.
pub update_resource-delete_resource :
    ⦃t : CaseTables⦄ (key : ReporterResourceKey) (r : Resource) (p : Report) (now later last : Time)
    → let r' = (delete_resource key now r).0 in
      (delete_resource key now r).1 ≡ none
      → (update_resource key p later last r').1 ≡ none
      → (old new : ReporterResource) × (find_reporter_resource_to_update_by_key key r' ≡ some old)
        × (find_reporter_resource_to_update_by_key key (update_resource key p later last r').0
            ≡ some new)
        × (new.tombstone ≡ false)
        × (new.generation ≡ increment old.generation)
        × (new.representation_version ≡ 0)
update_resource-delete_resource key r p now later last h k =
    let r' = (delete_resource key now r).0 in
    let (rr, f, dead) = tombstone-delete_resource key r now h in
    let (old, new, g, found, s) = update_resource-Reported key r' p later last k in
    let dead' : old.tombstone ≡ true = ground (arith, f, g, dead) in
    (old, new, g, found, s.alive, (s.restarts dead').0, (s.restarts dead').1)
