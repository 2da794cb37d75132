-- ===== src/Store/Fake/Deletes.antt =====
-- What the fake repository holds after Delete of the aggregate was saved.
use inventory_api.Base.{
  ◌≡◌, ap, ◌∙◌, sym, true, false, none, [], ◌∷◌, arith, nat_eq, if◌then◌else◌, CaseTables, Text,
  inl, inr,
}
use inventory_api.Model.Values.{Time}
use inventory_api.Model.ReporterResource.{
  ReporterResource, ReporterResourceKey, delete_reporter_resource,
}
use inventory_api.Model.Resource.{Resource, matches_key, delete_resource, delete_on, write_through}
use inventory_api.Model.Resource.Versions.{IsVersioned}
use inventory_api.Model.Resource.Tombstones.{delete_resource_cases}
use inventory_api.Store.Repository.{EventOperationType}
use inventory_api.Store.Fake.{save}
use inventory_api.Store.State.{FakeRepository, track_common_version}
use inventory_api.Store.Fake.Updates.{Holds, save-Holds, found_single, single-write_through}
use inventory_api.Store.Fake.Saves.{IsSingle, reloaded, unlinked, last_after}

-- The reporter resource that Delete leaves.
abbrev pub after_delete : Time → ReporterResource → ReporterResource
after_delete now rr = if rr.tombstone then rr else delete_reporter_resource now rr

module _ ⦃t : CaseTables⦄ (key : ReporterResourceKey) where
  same_id : (now : Time) (rr : ReporterResource) → (after_delete now rr).id ≡ rr.id
  unfolding delete_reporter_resource
  same_id now rr = ground arith

  same_key : (now : Time) (rr : ReporterResource) → (after_delete now rr).key ≡ rr.key
  unfolding delete_reporter_resource
  same_key now rr = ground arith

  same_resource :
      (now : Time) (rr : ReporterResource) → (after_delete now rr).resource_id ≡ rr.resource_id
  unfolding delete_reporter_resource
  same_resource now rr = ground arith

  after_dead : (now : Time) (rr : ReporterResource) → rr.tombstone ≡ true → after_delete now rr ≡ rr
  after_dead now rr h = ground arith

  after_alive :
      (now : Time) (rr : ReporterResource)
      → rr.tombstone ≡ false
      → after_delete now rr ≡ delete_reporter_resource now rr
  after_alive now rr h = ground arith

  module _ (now : Time) (r : Resource) (rr : ReporterResource) (s : FakeRepository) where
    -- Delete writes reporter resources and delete events alone.
    pub untouched-delete_resource :
        let r' = (delete_resource key now r).0 in
        r' ≡ record r {
          reporter_resources = r'.reporter_resources;
          resource_delete_events = r'.resource_delete_events;
        }
    unfolding delete_resource delete_on write_through
    untouched-delete_resource = ground arith

    reporter_resources-delete_resource :
        (h : Holds key r rr s)
        → (delete_resource key now r).1 ≡ none
        → (delete_resource key now r).0.reporter_resources ≡ after_delete now rr ∷ []
    reporter_resources-delete_resource h k =
        let (x, found, cases) = delete_resource_cases key r now k in
        let same : x ≡ rr = cc (found_single key r rr h.is_single.single h.matching) in
        elim cases [
          | inl (dead, e) ↦
              ap (λ (q : Resource). q.reporter_resources) e
              ∙ h.is_single.single
              ∙ ap (λ (q : ReporterResource). q ∷ [])
                  (sym (
                    after_dead now rr
                      (ap (λ (q : ReporterResource). q.tombstone) (sym same) ∙ dead)))
          | inr (alive, d) ↦
              ap (λ (q : Resource). q.reporter_resources) d.result
              ∙ single-write_through key r rr (delete_reporter_resource now) h.is_single.single
                  h.matching
              ∙ ap (λ (q : ReporterResource). q ∷ [])
                  (sym (
                    after_alive now rr
                      (ap (λ (q : ReporterResource). q.tombstone) (sym same) ∙ alive)))
        ]

    delete-IsSingle :
        (h : Holds key r rr s)
        → (delete_resource key now r).1 ≡ none
        → IsSingle (delete_resource key now r).0 (after_delete now rr)
    delete-IsSingle h k =
        let u = untouched-delete_resource in
        record {
          single = reporter_resources-delete_resource h k;
          typed =
              ap (λ (k : ReporterResourceKey). k.resource_type) (same_key now rr)
              ∙ h.is_single.typed
              ∙ sym (ap (λ (q : Resource). q.resource_type) u);
          owned = same_resource now rr ∙ h.is_single.owned ∙ sym (ap (λ (q : Resource). q.id) u);
        }

    last_after-delete :
        (h : Holds key r rr s) (saved : Time)
        → last_after saved (delete_resource key now r).0 s
          ≡ (delete_resource key now r).0.last_common_version
    unfolding track_common_version
    last_after-delete h saved = rw untouched-delete_resource (rw (h.quiet saved) h.seen)

    in_step-delete : Holds key r rr s → IsVersioned (delete_resource key now r).0
    in_step-delete h = rw untouched-delete_resource h.in_step

    -- What Delete without an error leaves is held, once it is saved.
    pub delete-Holds :
        (h : Holds key r rr s) (saved : Time) (operation : EventOperationType) (txid : Text)
        → (delete_resource key now r).1 ≡ none
        → (save saved (delete_resource key now r).0 operation txid s).0 ≡ none
        → Holds key
            (reloaded (delete_resource key now r).0 (after_delete now rr))
            (unlinked (after_delete now rr))
            (save saved (delete_resource key now r).0 operation txid s).1
    delete-Holds h saved operation txid k stored =
        save-Holds key saved (delete_resource key now r).0 (after_delete now rr) operation txid s
          (delete-IsSingle h k) (ap (matches_key key) (same_key now rr) ∙ h.matching)
          (rw (same_id now rr) h.alone) (last_after-delete h saved) (in_step-delete h) stored
