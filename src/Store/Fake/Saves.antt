-- ===== src/Store/Fake/Saves.antt =====
-- What Save of the fake repository stores, and what FindResourceByKeys then finds.
use inventory_api.Base.{
  ◌≡◌, ap, ◌∙◌, true, Option, none, some, [], ◌∷◌, arith, nat_eq, put, CaseTables, ok, look, ℕ,
  Text,
}
use inventory_api.Model.Values.{Uuid, Time}
use inventory_api.Model.ReporterResource.{ReporterResource, ReporterResourceKey}
use inventory_api.Model.Resource.{Resource, matches_key}
use inventory_api.Model.Serialization.{
  serialize_resource, serialize_reporter_resource, deserialize_resource_event, Snapshots,
  common_snapshot,
}
use inventory_api.Store.Repository.{EventOperationType}
use inventory_api.Store.Fake.{
  matches_stored, latest_from, find_resource_by_keys, resource_of, save, save_snapshots, store,
}
use inventory_api.Store.State.{
  StoredResource, FakeRepository, stored_resource, track_common_version,
}
use inventory_api.Store.Fake.Finds.{Alone, latest_from-put}

-- A reporter resource without its links.
abbrev pub unlinked : ReporterResource → ReporterResource
unlinked rr = record rr { api_href = []; console_href = none }

-- What is left of a resource after it was stored and loaded: all but the links of the reporter and the
-- events.
abbrev pub reloaded : Resource → ReporterResource → Resource
reloaded r rr = record r {
  reporter_resources = unlinked rr ∷ [];
  resource_report_events = deserialize_resource_event none none rr.created_at rr.updated_at ∷ [];
  resource_delete_events = [];
}

-- The highest common version seen for a resource once it is saved.
abbrev pub last_after : Time → Resource → FakeRepository → Option ℕ
last_after now r s = look r.id (
    track_common_version r.id (common_snapshot now r.resource_report_events)
      s.max_common_version_by_resource_id)

-- A resource with one reporter resource, which is its own.
pub record IsSingle (r : Resource) (rr : ReporterResource) : Type 0 where
  pub single : r.reporter_resources ≡ rr ∷ []
  pub typed : rr.key.resource_type ≡ r.resource_type
  pub owned : rr.resource_id ≡ r.id

module _ ⦃t : CaseTables⦄ where
  -- Save without an error put the resource under its primary key, and tracked its common version.
  saved :
      (n : Snapshots) (s : FakeRepository)
      → (save_snapshots n s).0 ≡ none
      → let s' = (save_snapshots n s).1 in
        let x = stored_resource n in
        (s'.resources_by_primary_key ≡ put x.reporter_resource_id x s.resources_by_primary_key)
        × (s'.max_common_version_by_resource_id
            ≡ track_common_version n.resource.id n.common_representation
                s.max_common_version_by_resource_id)
  unfolding save_snapshots store
  saved n s h = ground arith

  stored_reloaded :
      (last : Option ℕ) (now : Time) (r : Resource) (rr : ReporterResource)
      → IsSingle r rr
      → resource_of last (stored_resource (serialize_resource now r))
        ≡ reloaded (record r { last_common_version = last }) rr
  unfolding resource_of stored_resource serialize_resource serialize_reporter_resource
      inventory_api.Store.Fake.reporter_resource_snapshot_of
      inventory_api.Model.Serialization.deserialize_resource
      inventory_api.Model.Serialization.deserialize_reporter_resource
      inventory_api.Model.Serialization.deserialize_reporter_resource_key
  stored_reloaded last now r rr h = ground (arith, h.single, h.typed, h.owned)

  stored_matches :
      (key : ReporterResourceKey) (now : Time) (r : Resource) (rr : ReporterResource)
      → IsSingle r rr
      → matches_stored key (stored_resource (serialize_resource now r)) ≡ matches_key key rr.key
  unfolding matches_stored matches_key stored_resource serialize_resource
      serialize_reporter_resource
  stored_matches key now r rr h = ground (arith, h.single, h.typed)

  found_at :
      (key : ReporterResourceKey) (s : FakeRepository) (x : StoredResource)
      → latest_from key none s.resources_by_primary_key ≡ some x
      → find_resource_by_keys key s
        ≡ ok (resource_of (look x.resource_id s.max_common_version_by_resource_id) x)
  unfolding find_resource_by_keys
  found_at key s x h = rw (h, find_resource_by_keys)

  module _ (key : ReporterResourceKey) (now : Time) (r : Resource) (rr : ReporterResource)
      (operation : EventOperationType) (txid : Text) (s : FakeRepository) where
    primary_key_stored :
        IsSingle r rr → (stored_resource (serialize_resource now r)).reporter_resource_id ≡ rr.id
    unfolding stored_resource serialize_resource serialize_reporter_resource
    primary_key_stored h = ground (arith, h.single)

    pub resources-save :
        IsSingle r rr
        → (save now r operation txid s).0 ≡ none
        → (save now r operation txid s).1.resources_by_primary_key
          ≡ put rr.id (stored_resource (serialize_resource now r)) s.resources_by_primary_key
    unfolding save
    resources-save h k =
        (saved (serialize_resource now r) s k).0
        ∙ ap
            (λ (i : Uuid).
              put i (stored_resource (serialize_resource now r)) s.resources_by_primary_key)
            (primary_key_stored h)

    pub seen-save :
        (save now r operation txid s).0 ≡ none
        → look r.id (save now r operation txid s).1.max_common_version_by_resource_id
          ≡ last_after now r s
    unfolding save serialize_resource
    seen-save k = ap (look r.id) (saved (serialize_resource now r) s k).1

    -- A resource that was saved without an error is found by every key that matches its reporter
    -- resource and nothing else that is stored: with the highest common version seen, and all else
    -- as it was, but for the links of the reporter and the events.
    pub find-save :
        IsSingle r rr
        → matches_key key rr.key ≡ true
        → Alone key rr.id s.resources_by_primary_key
        → (save now r operation txid s).0 ≡ none
        → find_resource_by_keys key (save now r operation txid s).1
          ≡ ok (reloaded (record r { last_common_version = last_after now r s }) rr)
    find-save h m a k =
        let x = stored_resource (serialize_resource now r) in
        let s' = (save now r operation txid s).1 in
        let latest : latest_from key none s'.resources_by_primary_key ≡ some x =
          rw (resources-save h k) (
            rw (
              latest_from-put key rr.id x s.resources_by_primary_key a,
              stored_matches key now r rr h,
              m,
            )) in
        let seen : look x.resource_id s'.max_common_version_by_resource_id ≡ last_after now r s =
          unfold stored_resource serialize_resource in seen-save k in
        found_at key s' x latest
        ∙ ap (λ (o : Option ℕ). ok (resource_of o x)) seen
        ∙ ap (λ (q : Resource). ok q) (stored_reloaded (last_after now r s) now r rr h)
