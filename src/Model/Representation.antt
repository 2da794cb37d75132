-- ===== src/Model/Representation.antt =====
-- internal/biz/model/reporter_representation.go, common_representation.go and reporter.go, and the
-- JSON objects that a representation holds.
use inventory_api.Base.{
  ℕ, Bool, true, false, not, Option, none, some, List, [], nonempty, Text, trim_space, ◌==◌, nat_eq,
  ok, ◌>>◌, guard, is_some,
}
use inventory_api.Model.Values.{Fallible, Uuid, nil_uuid, empty, invalid_uuid, invalid_data}

-- `interface{}` as package json decodes it. No code here looks into a number, so its bits will do.
mutual
  pub data Json : Type 0 where
    null : Json
    bool : Bool → Json
    num : ℕ → Json
    str : Text → Json
    arr : Items → Json
    obj : Members → Json

  pub data Items : Type 0 where
    nil : Items
    cons : Json → Items → Items

  pub data Members : Type 0 where
    end : Members
    member : Text → Json → Members → Members

-- A map from names to values; `none` is the nil map, which has length 0 and no entry.
abbrev pub Representation : Type 0
Representation = Option (List (Text × Json))

abbrev pub entries : Representation → List (Text × Json)
entries none = []
entries (some fields) = fields

-- `len(r) > 0`
abbrev pub has_data : Representation → Bool
has_data r = nonempty (entries r)

abbrev pub new_empty_representation : Representation
new_empty_representation = some []

pub record ReporterId : Type 0 where
  pub reporter_type : Text
  pub reporter_instance_id : Text

-- ReporterDataRepresentation and ReporterDeleteRepresentation embed this and add nothing.
pub record ReporterRepresentation : Type 0 where
  pub content : Representation
  pub reporter_resource_id : Uuid
  pub version : ℕ
  pub generation : ℕ
  pub reporter_version : Option Text
  pub common_version : Option ℕ
  pub tombstone : Bool
  pub transaction_id : Text

pub record CommonRepresentation : Type 0 where
  pub content : Representation
  pub resource_id : Uuid
  pub version : ℕ
  pub reporter : ReporterId
  pub transaction_id : Text

unfoldable pub new_reporter_data_representation :
    Uuid → ℕ → ℕ → Representation → Option ℕ → Option Text → Text → Fallible ReporterRepresentation
new_reporter_data_representation id version generation content common_version reporter_version
      txid =
    do
      guard (not (id == nil_uuid)) invalid_uuid
      guard (is_some content) invalid_data
      ok (record {
        content = content;
        reporter_resource_id = id;
        version = version;
        generation = generation;
        reporter_version = reporter_version;
        common_version = common_version;
        tombstone = false;
        transaction_id = txid;
      })

unfoldable pub new_reporter_delete_representation : Uuid → ℕ → ℕ → Fallible ReporterRepresentation
new_reporter_delete_representation id version generation = do
  guard (not (id == nil_uuid)) invalid_uuid
  ok (record {
    content = none;
    reporter_resource_id = id;
    version = version;
    generation = generation;
    reporter_version = none;
    common_version = none;
    tombstone = true;
    transaction_id = [];
  })

-- The last test of the source, for nil data, is never reached: nil data has length 0.
unfoldable pub new_common_representation :
    Uuid → Representation → ℕ → Text → Text → Text → Fallible CommonRepresentation
unfolding trim_space
new_common_representation id content version reporter_type reporter_instance_id txid = do
  guard (not (id == nil_uuid)) invalid_uuid
  guard (nonempty (trim_space reporter_type)) empty
  guard (nonempty (trim_space reporter_instance_id)) empty
  guard (has_data content) invalid_data
  guard (is_some content) invalid_data
  ok (record {
    content = content;
    resource_id = id;
    version = version;
    reporter = record {
      reporter_type = reporter_type;
      reporter_instance_id = reporter_instance_id;
    };
    transaction_id = txid;
  })
