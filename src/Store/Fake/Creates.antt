-- ===== src/Store/Fake/Creates.antt =====
-- What the fake repository holds after NewResource of the aggregate was saved.
use inventory_api.Base.{
  ◌≡◌, refl, ap, ◌∙◌, sym, Option, none, some, nat_eq, CaseTables, ok, err, look, ℕ, Text, arith,
}
use inventory_api.Model.Values.{Uuid, Time}
use inventory_api.Model.ReporterResource.{
  ReporterResource, ReporterResourceKey, new_reporter_resource,
}
use inventory_api.Model.Events.{current_common_version}
use inventory_api.Model.Resource.{Resource, Report, new_resource}
use inventory_api.Model.Resource.Creation.{
  created_reporter_resource, find-new_resource, new_resource-ok, matches_key_refl,
}
use inventory_api.Store.Repository.{EventOperationType, record_not_found}
use inventory_api.Store.Fake.{find_resource_by_keys, save, latest_from}
use inventory_api.Store.State.{FakeRepository}
use inventory_api.Store.Fake.Updates.{Holds, save-Holds, highest, look-track_common_version}
use inventory_api.Store.Fake.Finds.{Alone-latest_from}
use inventory_api.Store.Fake.Saves.{IsSingle, reloaded, unlinked, last_after}

highest_unseen : (v : Option ℕ) → highest v none ≡ v
highest_unseen none = refl
highest_unseen (some v) = refl

not_found :
    ⦃t : CaseTables⦄ (key : ReporterResourceKey) (s : FakeRepository)
    → find_resource_by_keys key s ≡ err record_not_found
    → latest_from key none s.resources_by_primary_key ≡ none
unfolding find_resource_by_keys
not_found key s h = ground arith

module _ ⦃t : CaseTables⦄ (id reporter_resource_id : Uuid) (key : ReporterResourceKey)
    (report : Report) (now later : Time) (r : Resource) (s : FakeRepository) where
  abbrev rr : ReporterResource
  rr = created_reporter_resource id reporter_resource_id key report now later

  types-new_resource :
      new_resource id reporter_resource_id key report now later ≡ ok r
      → (r.id ≡ id) × (r.resource_type ≡ key.resource_type)
  unfolding new_resource
  types-new_resource h = ground arith

  create-IsSingle : new_resource id reporter_resource_id key report now later ≡ ok r → IsSingle r rr
  unfolding new_reporter_resource
  create-IsSingle h =
      let (e, made, common, last, rrs, events) =
        new_resource-ok id reporter_resource_id key report now later r h in
      record {
        single = rrs;
        typed = sym (types-new_resource h).1;
        owned = sym (types-new_resource h).0;
      }

  last_after-new_resource :
      (saved : Time)
      → new_resource id reporter_resource_id key report now later ≡ ok r
      → look id s.max_common_version_by_resource_id ≡ none
      → last_after saved r s ≡ r.last_common_version
  last_after-new_resource saved h fresh =
      let (e, events, shown, version) =
        (find-new_resource id reporter_resource_id key report now later r h).3 in
      let (made_of, made, common, last, rrs, made_events) =
        new_resource-ok id reporter_resource_id key report now later r h in
      let tracked = look-track_common_version r.id saved e s.max_common_version_by_resource_id in
      let unseen : look r.id s.max_common_version_by_resource_id ≡ none =
        rw (types-new_resource h).0 fresh in
      rw events (
        tracked
        ∙ ap (highest (current_common_version e)) unseen
        ∙ highest_unseen (current_common_version e)
        ∙ shown
        ∙ common
        ∙ sym last)

  -- A resource that was created because nothing was found at its key is held, once it is saved.
  pub create-Holds :
      (saved : Time) (operation : EventOperationType) (txid : Text)
      → new_resource id reporter_resource_id key report now later ≡ ok r
      → find_resource_by_keys key s ≡ err record_not_found
      → look id s.max_common_version_by_resource_id ≡ none
      → (save saved r operation txid s).0 ≡ none
      → Holds key (reloaded r rr) (unlinked rr) (save saved r operation txid s).1
  unfolding new_reporter_resource
  create-Holds saved operation txid h f fresh k =
      save-Holds key saved r rr operation txid s (create-IsSingle h) (matches_key_refl key)
        (Alone-latest_from key rr.id s.resources_by_primary_key (not_found key s f))
        (last_after-new_resource saved h fresh)
        (find-new_resource id reporter_resource_id key report now later r h).0 k
