-- ===== src/Store/Fake.antt =====
-- internal/data/fake_resource_repository.go and fake_transaction_manager.go: the repository in memory.
-- A Go map is an association list. Go ranges over a map in no fixed order, which shows only where two
-- resources tie. The lock, and the copies that cloneJsonObject makes, have no counterpart.
pub mod Finds
pub mod Representations
pub mod Saves
pub mod Updates
pub mod Deletes
pub mod Creates
use inventory_api.Base.{
  ℕ, Bool, true, false, not, ◌&&◌, ◌||◌, Option, none, some, List, [], ◌∷◌, ◌++◌, nonempty, Text,
  codes, list_eq, nat_eq, ◌==◌, ltb, if◌then◌else◌, contains, format_int, look, put, remove,
  to_lower, equal_fold, CaseTables, Result, ok, err,
}
use inventory_api.Model.Values.{Time, Uuid}
use inventory_api.Model.Representation.{Representation}
use inventory_api.Model.ReporterResource.{ReporterResourceKey}
use inventory_api.Model.Resource.{Resource}
use inventory_api.Model.Snapshots.{
  ReporterResourceSnapshot, CommonRepresentationSnapshot, ReporterRepresentationSnapshot,
}
use inventory_api.Model.Serialization.{Snapshots, serialize_resource, deserialize_resource}
use inventory_api.Store.Repository.{
  Fault, record_not_found, duplicate_key, simulated_failure, EventOperationType, Run,
  ResourceRepository,
}
use inventory_api.Store.State.{
  StoredResource, StoredRepresentation, FakeRepository, new_fake_resource_repository, bar,
  make_composite_key, composite_key_of, common_data_of, common_version_of, stored_resource, exceeds,
  track_common_version, mark_transaction_id_as_processed, reporter_transaction, common_transaction,
  history_or_empty,
}

module _ ⦃t : CaseTables⦄ where
  unfoldable pub make_history_key : Text → Text → Text → Text → Text
  unfolding to_lower
  make_history_key local_resource_id reporter_type resource_type reporter_instance_id = to_lower (
      local_resource_id
      ++ (bar ++ (reporter_type ++ (bar ++ (resource_type ++ (bar ++ reporter_instance_id))))))

  abbrev pub history_key_of : StoredResource → Text
  history_key_of x =
      make_history_key x.local_resource_id x.reporter_type x.resource_type x.reporter_instance_id

  -- The part of Save below the test of the unique key.
  unfoldable pub store : Snapshots → FakeRepository → FakeRepository
  unfolding stored_resource make_composite_key make_history_key track_common_version
      mark_transaction_id_as_processed
  store n s =
      let x = stored_resource n in
      let history = history_key_of x in
      record {
        resources_by_primary_key = put x.reporter_resource_id x s.resources_by_primary_key;
        resources_by_composite_key =
            put (composite_key_of x) x.reporter_resource_id s.resources_by_composite_key;
        representations_by_version =
            put history
              (put x.representation_version
                (record {
                  common_data = x.common_data;
                  common_version = common_version_of n.common_representation;
                })
                (history_or_empty (look history s.representations_by_version)))
              s.representations_by_version;
        processed_transaction_ids =
            mark_transaction_id_as_processed (common_transaction n.common_representation) (
              mark_transaction_id_as_processed (reporter_transaction n.reporter_representation)
                s.processed_transaction_ids);
        max_common_version_by_resource_id =
            track_common_version n.resource.id n.common_representation
              s.max_common_version_by_resource_id;
      }

  -- Save, once the resource is serialized.
  unfoldable pub save_snapshots : Snapshots → Run FakeRepository
  unfolding store
  save_snapshots n s =
      let x = stored_resource n in
      elim (look x.reporter_resource_id s.resources_by_primary_key) [
        | some old ↦ (
          none,
          store n (record s {
            resources_by_composite_key = remove (composite_key_of old) s.resources_by_composite_key;
          }),
        )
        | none ↦ elim (look (composite_key_of x) s.resources_by_composite_key) [
          | some _ ↦ (some duplicate_key, s)
          | none ↦ (none, store n s)
        ]
      ]

  unfoldable pub save : Time → Resource → EventOperationType → Text → Run FakeRepository
  unfolding save_snapshots serialize_resource
  save now r operation txid s = save_snapshots (serialize_resource now r) s

  -- The tests of FindResourceByKeys: no instance id in the key matches every instance.
  unfoldable pub matches_stored : ReporterResourceKey → StoredResource → Bool
  unfolding equal_fold
  matches_stored key x =
      equal_fold x.local_resource_id key.local_resource_id
      && equal_fold x.resource_type key.resource_type
      && equal_fold x.reporter_type key.reporter.reporter_type
      && (not (nonempty key.reporter.reporter_instance_id)
          || equal_fold x.reporter_instance_id key.reporter.reporter_instance_id)

  -- Whether a stored resource takes the place of the latest one so far.
  unfoldable pub beats : StoredResource → StoredResource → Bool
  beats x latest =
      if not x.tombstone && latest.tombstone
      then true
      else if x.tombstone && not latest.tombstone
      then false
      else ltb latest.representation_version x.representation_version
        || (x.representation_version == latest.representation_version
            && ltb latest.generation x.generation)

  abbrev pub later_of : Option StoredResource → StoredResource → StoredResource
  later_of none x = x
  later_of (some latest) x = if beats x latest then x else latest

  -- The loop of FindResourceByKeys.
  unfoldable pub latest_from :
      ReporterResourceKey
      → Option StoredResource
      → List (Uuid × StoredResource)
      → Option StoredResource
  unfolding matches_stored beats
  latest_from key latest [] = latest
  latest_from key latest ((_, x) ∷ rest) =
      latest_from key (if matches_stored key x then some (later_of latest x) else latest) rest

-- What FindResourceByKeys makes of the latest resource. The links of the reporter are not stored.
unfoldable pub reporter_resource_snapshot_of : StoredResource → ReporterResourceSnapshot
reporter_resource_snapshot_of x = record {
  id = x.reporter_resource_id;
  reporter_resource_key = record {
    local_resource_id = x.local_resource_id;
    reporter_type = x.reporter_type;
    resource_type = x.resource_type;
    reporter_instance_id = x.reporter_instance_id;
  };
  resource_id = x.resource_id;
  api_href = [];
  console_href = none;
  representation_version = x.representation_version;
  generation = x.generation;
  tombstone = x.tombstone;
  created_at = x.created_at;
  updated_at = x.updated_at;
}

unfoldable pub resource_of : Option ℕ → StoredResource → Resource
unfolding reporter_resource_snapshot_of deserialize_resource
resource_of last x =
    deserialize_resource
      (record {
        id = x.resource_id;
        resource_type = x.resource_type;
        common_version = x.common_version;
        last_common_version = last;
        consistency_token = x.consistency_token;
        created_at = x.created_at;
        updated_at = x.updated_at;
      })
      (reporter_resource_snapshot_of x ∷ []) none none

module _ ⦃t : CaseTables⦄ where
  unfoldable pub find_resource_by_keys :
      ReporterResourceKey → FakeRepository → Result Fault Resource
  unfolding latest_from resource_of
  find_resource_by_keys key s = elim (latest_from key none s.resources_by_primary_key) [
    | none ↦ err record_not_found
    | some x ↦ ok (resource_of (look x.resource_id s.max_common_version_by_resource_id) x)
  ]

unfoldable pub has_transaction_id_been_processed : Text → FakeRepository → Result Fault Bool
has_transaction_id_been_processed id s = ok (contains id s.processed_transaction_ids)

-- The fake transaction manager, with its two switches. It starts no transaction: what the function
-- wrote stays, also if the commit is made to fail.
unfoldable pub fake_transaction : {S : Type 0} → Bool → Bool → Run S → Run S
fake_transaction fail_transaction fail_commit run s =
    if fail_transaction then (some simulated_failure, s) else elim ((run s).0) [
      | some e ↦ (some e, (run s).1)
      | none ↦ (if fail_commit then some simulated_failure else none, (run s).1)
    ]

abbrev pub fake_repository : ⦃t : CaseTables⦄ → ResourceRepository
fake_repository ⦃t⦄ = record {
  State = FakeRepository;
  find_resource_by_keys = find_resource_by_keys;
  save = save;
  has_transaction_id_been_processed = has_transaction_id_been_processed;
  handle_serializable_transaction = fake_transaction false false;
}
