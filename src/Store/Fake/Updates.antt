-- ===== src/Store/Fake/Updates.antt =====
-- What the fake repository holds after Update, Delete and NewResource of the aggregate were saved.
use inventory_api.Base.{
  ◌≡◌, refl, ap, ◌∙◌, sym, Bool, true, false, Option, none, some, List, [], ◌∷◌, arith, nat_eq,
  ◌==◌, if◌then◌else◌, modify_first, find_first, put, remove, CaseTables, ok, look, look-put, ℕ,
  Text, ==_refl, ltb, Option-cases, Bool-cases, inl, inr,
}
use inventory_api.Model.Values.{Uuid, Time}
use inventory_api.Model.ReporterResource.{
  ReporterResource, ReporterResourceKey, update_reporter_resource,
}
use inventory_api.Model.Events.{ResourceReportEvent, current_common_version, set_timestamps}
use inventory_api.Model.Resource.{
  Resource, Report, matches_key, update_resource, write_through, is_given, report_on, created_at,
  advance_common_version, find_reporter_resource_to_update_by_key,
}
use inventory_api.Model.Resource.Versions.{
  IsVersioned, HasVersionRoom, Advances, Advances-IsVersioned, update_resource-Advances,
  current_common_version-update_resource,
}
use inventory_api.Model.Resource.Lifecycle.{
  update_resource-IsUpdated, reporter_resources-advance, update_reporter_resource_state,
}
use inventory_api.Model.Serialization.{
  deserialize_resource_event, serialize_common_representation, common_snapshot,
}
use inventory_api.Store.Repository.{EventOperationType}
use inventory_api.Store.Fake.{find_resource_by_keys, save}
use inventory_api.Store.State.{StoredResource, FakeRepository, track_common_version}
use inventory_api.Store.Fake.Finds.{Alone}
use inventory_api.Store.Fake.Saves.{
  IsSingle, reloaded, unlinked, find-save, last_after, resources-save, seen-save,
}

-- The version that the tracking makes of a version and the highest one before.
abbrev pub highest : Option ℕ → Option ℕ → Option ℕ
highest none seen = seen
highest (some v) none = some v
highest (some v) (some w) = if ltb w v then some v else some w

pub look-track_common_version :
    (id : Uuid) (now : Time) (e : ResourceReportEvent) (seen : List (Uuid × ℕ))
    → look id (track_common_version id (common_snapshot now (e ∷ [])) seen)
      ≡ highest (current_common_version e) (look id seen)
unfolding track_common_version current_common_version serialize_common_representation
look-track_common_version id now e seen = elim (Option-cases e.common_representation) [
  | inl absent ↦ rw absent refl
  | inr (c, there) ↦ rw there (ground (arith, look-put id id c.version seen, ==_refl id))
]

highest-Advances :
    (b : Bool) (last common' last' : Option ℕ)
    → Advances b last common' last'
    → highest common' last ≡ last'
highest-Advances true last none last' h = absurd h.0
highest-Advances true none (some v) last' h = ground arith
highest-Advances true (some w) (some v) last' h = ground arith
highest-Advances false last common' last' h = ground arith

module _ ⦃t : CaseTables⦄ (key : ReporterResourceKey) where
  -- The repository holds a resource at the key: it is found, nothing else that is stored matches the
  -- key, and its last common version is the highest one seen.
  pub record Holds (r : Resource) (rr : ReporterResource) (s : FakeRepository) : Type 0 where
    pub is_single : IsSingle r rr
    pub matching : matches_key key rr.key ≡ true
    pub alone : Alone key rr.id s.resources_by_primary_key
    pub seen : look r.id s.max_common_version_by_resource_id ≡ r.last_common_version
    pub in_step : IsVersioned r
    pub quiet : (now : Time) → common_snapshot now r.resource_report_events ≡ none
    pub found : find_resource_by_keys key s ≡ ok r

  Alone-remove :
      (id : Uuid) (m : List (Uuid × StoredResource)) → Alone key id m → Alone key id (remove id m)
  unfolding remove
  Alone-remove id [] h = tt
  Alone-remove id ((j, x) ∷ rest) (h, hs) = elim (Bool-cases (j == id)) [
    | inl e ↦ rw e (Alone-remove id rest hs)
    | inr e ↦ rw e ((h, Alone-remove id rest hs))
  ]

  Alone-put :
      (id : Uuid) (x : StoredResource) (m : List (Uuid × StoredResource))
      → Alone key id m
      → Alone key id (put id x m)
  unfolding put
  Alone-put id x m h = (λ d. cc (==_refl id), Alone-remove id m h)

  module _ (now : Time) (r : Resource) (rr : ReporterResource) (operation : EventOperationType)
      (txid : Text) (s : FakeRepository) where
    -- A resource that was saved without an error is held.
    pub save-Holds :
        IsSingle r rr
        → matches_key key rr.key ≡ true
        → Alone key rr.id s.resources_by_primary_key
        → last_after now r s ≡ r.last_common_version
        → IsVersioned r
        → (save now r operation txid s).0 ≡ none
        → Holds (reloaded r rr) (unlinked rr) (save now r operation txid s).1
    unfolding deserialize_resource_event
    save-Holds h m a l v k = record {
      is_single = record { single = refl; typed = h.typed; owned = h.owned };
      matching = m;
      alone =
          rw (resources-save key now r rr operation txid s h k)
            (Alone-put rr.id _ s.resources_by_primary_key a);
      seen = seen-save key now r rr operation txid s k ∙ l;
      in_step = v;
      quiet = λ _. refl;
      found =
          find-save key now r rr operation txid s h m a k
          ∙ ap (λ (o : Option ℕ). ok (reloaded (record r { last_common_version = o }) rr)) l;
    }

  -- The one reporter resource after a write through the key.
  pub single-write_through :
      (r : Resource) (rr : ReporterResource) (f : ReporterResource → ReporterResource)
      → r.reporter_resources ≡ rr ∷ []
      → matches_key key rr.key ≡ true
      → (write_through key f r).reporter_resources ≡ f rr ∷ []
  unfolding write_through modify_first
  single-write_through r rr f h m = rw h (rw m refl)

  pub found_single :
      (r : Resource) (rr : ReporterResource)
      → r.reporter_resources ≡ rr ∷ []
      → matches_key key rr.key ≡ true
      → find_reporter_resource_to_update_by_key key r ≡ some rr
  unfolding find_reporter_resource_to_update_by_key find_first
  found_single r rr h m = rw h (rw m refl)

  module _ (p : Report) (now later : Time) (r : Resource) (rr : ReporterResource)
      (s : FakeRepository) where
    pub id-update_resource : (update_resource key p now later r).0.id ≡ r.id
    unfolding update_resource report_on write_through advance_common_version
    id-update_resource = ground arith

    type-update_resource : (update_resource key p now later r).0.resource_type ≡ r.resource_type
    unfolding update_resource report_on write_through advance_common_version
    type-update_resource = ground arith

    update-IsSingle :
        (h : Holds r rr s)
        → (update_resource key p now later r).1 ≡ none
        → IsSingle
            (update_resource key p now later r).0
            (update_reporter_resource p.api_href p.console_href now rr)
    update-IsSingle h k =
        let u = update_resource-IsUpdated key r p now later k in
        let change = update_reporter_resource p.api_href p.console_href now in
        let (alive, same_key, same_id, same_resource) =
          update_reporter_resource_state p.api_href p.console_href now rr in
        record {
          single =
              ap (λ (q : Resource). q.reporter_resources) u.result
              ∙ single-write_through (advance_common_version p r) rr change
                  (reporter_resources-advance key r p ∙ h.is_single.single) h.matching;
          typed =
              ap (λ (k : ReporterResourceKey). k.resource_type) same_key
              ∙ h.is_single.typed
              ∙ sym type-update_resource;
          owned = same_resource ∙ h.is_single.owned ∙ sym id-update_resource;
        }

    last_after-update :
        (h : Holds r rr s) (saved : Time)
        → HasVersionRoom r.last_common_version
        → (update_resource key p now later r).1 ≡ none
        → last_after saved (update_resource key p now later r).0 s
          ≡ (update_resource key p now later r).0.last_common_version
    last_after-update h saved room k =
        let u = update_resource-IsUpdated key r p now later k in
        let r' = (update_resource key p now later r).0 in
        let e = set_timestamps (created_at r) later u.event in
        let events : r'.resource_report_events ≡ e ∷ [] =
          ap (λ (q : Resource). q.resource_report_events) u.result in
        let shown = current_common_version-update_resource key p now later r e k events in
        let tracked : look r'.id (
              track_common_version r'.id (common_snapshot saved (e ∷ []))
                s.max_common_version_by_resource_id)
            ≡ highest (current_common_version e) (look r'.id s.max_common_version_by_resource_id) =
          look-track_common_version r'.id saved e s.max_common_version_by_resource_id in
        rw events (
          rw (tracked, shown, id-update_resource, h.seen)
            (highest-Advances (is_given p.common_data) r.last_common_version r'.common_version
              r'.last_common_version (update_resource-Advances key p now later r h.in_step room)))

    -- What Update without an error leaves is held, once it is saved.
    pub update-Holds :
        (h : Holds r rr s) (saved : Time) (operation : EventOperationType) (txid : Text)
        → HasVersionRoom r.last_common_version
        → (update_resource key p now later r).1 ≡ none
        → (save saved (update_resource key p now later r).0 operation txid s).0 ≡ none
        → Holds
            (reloaded
              (update_resource key p now later r).0
              (update_reporter_resource p.api_href p.console_href now rr))
            (unlinked (update_reporter_resource p.api_href p.console_href now rr))
            (save saved (update_resource key p now later r).0 operation txid s).1
    update-Holds h saved operation txid room k stored =
        let r' = (update_resource key p now later r).0 in
        let (alive, same_key, same_id, same_resource) =
          update_reporter_resource_state p.api_href p.console_href now rr in
        save-Holds saved r' (update_reporter_resource p.api_href p.console_href now rr) operation
          txid s (update-IsSingle h k) (ap (matches_key key) same_key ∙ h.matching)
          (rw same_id h.alone) (last_after-update h saved room k)
          (Advances-IsVersioned (is_given p.common_data) r.last_common_version r'.common_version
            r'.last_common_version (update_resource-Advances key p now later r h.in_step room))
          stored
