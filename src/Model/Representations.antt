-- ===== src/Model/Representations.antt =====
-- internal/biz/model/representations.go: the data of one version of a resource. A nil pointer is
-- `none`, and reads as if nothing were there.
use inventory_api.Base.{
  ℕ, Bool, true, false, ◌&&◌, ◌||◌, not, Option, none, some, List, [], ◌∷◌, Text, codes, list_eq,
  nat_eq, ◌==◌, if◌then◌else◌, is_some, ok, ◌>>◌, guard,
}
use inventory_api.Model.Values.{
  Fallible, representations_missing, common_unpaired, reporter_unpaired,
}
use inventory_api.Model.Representation.{
  Json, str, arr, Items, nil, cons, Representation, entries, has_data,
}

pub record Representations : Type 0 where
  pub common_data : Representation
  pub common_version : Option ℕ
  pub reporter_data : Representation
  pub reporter_representation_version : Option ℕ

abbrev same : Bool → Bool → Bool
same true b = b
same false b = not b

unfoldable pub new_representations :
    Representation → Option ℕ → Representation → Option ℕ → Fallible Representations
new_representations common common_version reporter reporter_version = do
  guard
      ((has_data common && is_some common_version)
        || (has_data reporter && is_some reporter_version))
      representations_missing
  guard (same (has_data common) (is_some common_version)) common_unpaired
  guard (same (has_data reporter) (is_some reporter_version)) reporter_unpaired
  ok (record {
    common_data = common;
    common_version = common_version;
    reporter_data = reporter;
    reporter_representation_version = reporter_version;
  })

unfoldable pub has_common : Representations → Bool
has_common r = has_data r.common_data && is_some r.common_version

-- A read of a map with string keys.
unfoldable pub field : Text → List (Text × Json) → Option Json
field name [] = none
field name ((k, v) ∷ rest) = if k == name then some v else field name rest

-- `value, ok := x.(string)`, with "" if it is no string.
abbrev pub string_or_empty : Option Json → Text
string_or_empty (some (str s)) = s
string_or_empty _ = []

-- The strings of an array; the rest is skipped.
unfoldable pub strings_in : Items → List Text
strings_in nil = []
strings_in (cons (str s) rest) = s ∷ strings_in rest
strings_in (cons _ rest) = strings_in rest

abbrev pub array_strings : Option Json → List Text
array_strings (some (arr items)) = strings_in items
array_strings _ = []

unfoldable pub string_field : Text → Option Representations → Text
unfolding has_common field
string_field name none = []
string_field name (some r) =
    if has_common r then string_or_empty (field name (entries r.common_data)) else []

-- The nil slice is the empty one: callers ask for its length and its members.
unfoldable pub string_slice_field : Text → Option Representations → List Text
unfolding has_common field strings_in
string_slice_field name none = []
string_slice_field name (some r) =
    if has_common r then array_strings (field name (entries r.common_data)) else []

unfoldable pub workspace_id : Option Representations → Text
unfolding string_field
workspace_id r = string_field (codes "workspace_id") r
