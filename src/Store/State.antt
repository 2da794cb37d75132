-- ===== src/Store/State.antt =====
-- internal/data/fake_resource_repository.go: the state of the repository in memory, and the parts of Save
-- that need no case folding.
use inventory_api.Base.{
  ℕ, Bool, true, Option, none, some, List, [], ◌∷◌, ◌++◌, nonempty, Text, codes, list_eq, nat_eq,
  ltb, if◌then◌else◌, format_int, look, put,
}
use inventory_api.Model.Values.{Time, Uuid}
use inventory_api.Model.Representation.{Representation}
use inventory_api.Model.Snapshots.{CommonRepresentationSnapshot, ReporterRepresentationSnapshot}
use inventory_api.Model.Serialization.{Snapshots}

pub record StoredResource : Type 0 where
  pub resource_id : Uuid
  pub resource_type : Text
  pub common_version : Option ℕ
  pub common_data : Representation
  pub consistency_token : Text
  pub reporter_resource_id : Uuid
  pub local_resource_id : Text
  pub reporter_type : Text
  pub reporter_instance_id : Text
  pub representation_version : ℕ
  pub generation : ℕ
  pub tombstone : Bool
  pub created_at : Time
  pub updated_at : Time

pub record StoredRepresentation : Type 0 where
  pub common_data : Representation
  pub common_version : ℕ

-- The field `resources` of the source is never read nor written.
pub record FakeRepository : Type 0 where
  pub resources_by_primary_key : List (Uuid × StoredResource)
  pub resources_by_composite_key : List (Text × Uuid)
  pub representations_by_version : List (Text × List (ℕ × StoredRepresentation))
  pub processed_transaction_ids : List Text
  pub max_common_version_by_resource_id : List (Uuid × ℕ)

unfoldable pub new_fake_resource_repository : FakeRepository
new_fake_resource_repository = record {
  resources_by_primary_key = [];
  resources_by_composite_key = [];
  representations_by_version = [];
  processed_transaction_ids = [];
  max_common_version_by_resource_id = [];
}

abbrev pub bar : Text
bar = codes "|"

unfoldable pub make_composite_key : Text → Text → Text → Text → ℕ → ℕ → Text
unfolding format_int
make_composite_key local_resource_id reporter_type resource_type reporter_instance_id version
      generation =
    local_resource_id
    ++ (bar
        ++ (reporter_type
            ++ (bar
                ++ (resource_type
                    ++ (bar
                        ++ (reporter_instance_id
                            ++ (bar ++ (format_int version ++ (bar ++ format_int generation)))))))))

-- The key of what is stored already.
abbrev pub composite_key_of : StoredResource → Text
composite_key_of x =
    make_composite_key x.local_resource_id x.reporter_type x.resource_type x.reporter_instance_id
      x.representation_version x.generation

abbrev pub common_data_of : Option CommonRepresentationSnapshot → Representation
common_data_of none = none
common_data_of (some c) = c.representation

abbrev pub common_version_of : Option CommonRepresentationSnapshot → ℕ
common_version_of none = 0
common_version_of (some c) = c.version

-- The `stored` of Save.
unfoldable pub stored_resource : Snapshots → StoredResource
stored_resource n = record {
  resource_id = n.resource.id;
  resource_type = n.resource.resource_type;
  common_version = n.resource.common_version;
  common_data = common_data_of n.common_representation;
  consistency_token = n.resource.consistency_token;
  reporter_resource_id = n.reporter_resource.id;
  local_resource_id = n.reporter_resource.reporter_resource_key.local_resource_id;
  reporter_type = n.reporter_resource.reporter_resource_key.reporter_type;
  reporter_instance_id = n.reporter_resource.reporter_resource_key.reporter_instance_id;
  representation_version = n.reporter_resource.representation_version;
  generation = n.reporter_resource.generation;
  tombstone = n.reporter_resource.tombstone;
  created_at = n.reporter_resource.created_at;
  updated_at = n.reporter_resource.updated_at;
}

-- Whether a version is higher than what was seen.
abbrev pub exceeds : ℕ → Option ℕ → Bool
exceeds v none = true
exceeds v (some seen) = ltb seen v

-- The highest common version seen for a resource.
unfoldable pub track_common_version :
    Uuid → Option CommonRepresentationSnapshot → List (Uuid × ℕ) → List (Uuid × ℕ)
track_common_version id none seen = seen
track_common_version id (some c) seen =
    if exceeds c.version (look id seen) then put id c.version seen else seen

unfoldable pub mark_transaction_id_as_processed : Text → List Text → List Text
mark_transaction_id_as_processed id ids = if nonempty id then id ∷ ids else ids

abbrev pub reporter_transaction : Option ReporterRepresentationSnapshot → Text
reporter_transaction none = []
reporter_transaction (some r) = r.transaction_id

abbrev pub common_transaction : Option CommonRepresentationSnapshot → Text
common_transaction none = []
common_transaction (some c) = c.transaction_id

abbrev pub history_or_empty :
    Option (List (ℕ × StoredRepresentation)) → List (ℕ × StoredRepresentation)
history_or_empty none = []
history_or_empty (some h) = h
