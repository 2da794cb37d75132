-- ===== src/Relations/Simple.antt =====
-- internal/data/relations_simple.go: the backend that keeps direct tuples in a map, a version that
-- grows with every change, and the snapshots that a caller asked to retain.
pub mod Keys
pub mod Queries
pub mod Sessions
pub mod Snapshots
pub mod Writes
use inventory_api.Base.{
  ℕ, ◌+◌, ◌-◌, ◌^◌, ◌%◌, Bool, true, false, not, Option, none, some, List, [], ◌∷◌, ◌++◌, map, Text,
  codes, list_eq, nat_eq, ◌==◌, leb, if◌then◌else◌, contains, keep, find_first, format_int64,
  parse_int64, zero_int64, int64_mod, Result, ok, err,
}
use inventory_api.Model.Consistency.{Consistency, consistency_at_least_as_fresh_token}
use inventory_api.Model.References.{RelationsTuple, TupleFilter, Relationship}
use inventory_api.Relations.Codes.{Code, FencingCheck, CheckResult, RelationsRepository}
use Keys.{SimpleTupleKey, key_eq, simple_tuple_key, simple_matches_tuple_filter}

-- The version is an int64 in the order of Base.Decimals.
pub record SimpleRelations : Type 0 where
  pub version : ℕ
  pub tuples : List SimpleTupleKey
  pub snapshots : List (ℕ × List SimpleTupleKey)
  pub health_error : Option Code
  pub create_tuples_error : Option Code
  pub delete_tuples_error : Option Code
  pub acquire_lock_error : Option Code
  pub locks : List (Text × Text)

unfoldable pub new_simple_relations : SimpleRelations
new_simple_relations = record {
  version = zero_int64 + 1;
  tuples = [];
  snapshots = [];
  health_error = none;
  create_tuples_error = none;
  delete_tuples_error = none;
  acquire_lock_error = none;
  locks = [];
}

-- The map at a version, if it was retained.
unfoldable pub snapshot_at : ℕ → List (ℕ × List SimpleTupleKey) → Option (List SimpleTupleKey)
snapshot_at v [] = none
snapshot_at v ((w, ts) ∷ rest) = if w == v then some ts else snapshot_at v rest

unfoldable pub remove_snapshot : ℕ → List (ℕ × List SimpleTupleKey) → List (ℕ × List SimpleTupleKey)
remove_snapshot v [] = []
remove_snapshot v ((w, ts) ∷ rest) =
    let rest' = remove_snapshot v rest in if w == v then rest' else (w, ts) ∷ rest'

unfoldable pub retain_current_snapshot : SimpleRelations → SimpleRelations
unfolding remove_snapshot
retain_current_snapshot s = record s {
  snapshots = (s.version, s.tuples) ∷ remove_snapshot s.version s.snapshots;
}

unfoldable pub release_snapshot : ℕ → SimpleRelations → SimpleRelations
unfolding remove_snapshot
release_snapshot v s = record s { snapshots = remove_snapshot v s.snapshots }

-- The highest int64 is followed by the lowest.
unfoldable pub advance_version : SimpleRelations → SimpleRelations
advance_version s = record s { version = (s.version + 1) % int64_mod }

unfoldable pub insert_sorted : ℕ → List ℕ → List ℕ
insert_sorted v [] = v ∷ []
insert_sorted v (w ∷ ws) = if leb v w then v ∷ w ∷ ws else w ∷ insert_sorted v ws

-- slices.Sort
unfoldable pub sort : List ℕ → List ℕ
unfolding insert_sorted
sort [] = []
sort (v ∷ vs) = insert_sorted v (sort vs)

-- A token that is missing or is no number asks for version 0.
unfoldable pub requested_version : Text → ℕ
unfolding parse_int64
requested_version token = elim (parse_int64 token) [ none ↦ zero_int64 | some v ↦ v ]

abbrev pub versions : SimpleRelations → List ℕ
versions s = sort (map (λ (p : ℕ × List SimpleTupleKey). p.0) s.snapshots ++ s.version ∷ [])

abbrev pub or_empty : Option (List SimpleTupleKey) → List SimpleTupleKey
or_empty none = []
or_empty (some ts) = ts

-- The map that a found version stands for.
unfoldable pub tuples_found : Option ℕ → SimpleRelations → List SimpleTupleKey
unfolding snapshot_at
tuples_found none s = s.tuples
tuples_found (some v) s = if v == s.version then s.tuples else or_empty (snapshot_at v s.snapshots)

-- slices.BinarySearch in the sorted versions: the first that is not below the requested one.
unfoldable pub get_tuples_for_token : Text → SimpleRelations → List SimpleTupleKey
unfolding requested_version sort find_first tuples_found
get_tuples_for_token token s =
    tuples_found (find_first (leb (requested_version token)) (versions s)) s

abbrev pub token_or_empty : Option Text → Text
token_or_empty none = []
token_or_empty (some t) = t

unfoldable pub consistency_to_simple_token : Consistency → Text
unfolding consistency_at_least_as_fresh_token
consistency_to_simple_token c = token_or_empty (consistency_at_least_as_fresh_token c)

unfoldable pub check :
    Relationship → Consistency → SimpleRelations → Result Code CheckResult × SimpleRelations
check rel c s = (
  ok (record {
    allowed =
        contains (simple_tuple_key rel.object rel.relation rel.subject)
          (get_tuples_for_token (consistency_to_simple_token c) s);
    consistency_token = format_int64 s.version;
  }),
  s,
)

unfoldable pub check_for_update :
    Relationship → SimpleRelations → Result Code CheckResult × SimpleRelations
check_for_update rel s = (
  ok (record {
    allowed = contains (simple_tuple_key rel.object rel.relation rel.subject) s.tuples;
    consistency_token = format_int64 s.version;
  }),
  s,
)

abbrev pub key_of : RelationsTuple → SimpleTupleKey
key_of t = simple_tuple_key t.object t.relation t.subject

-- `tuples[key] = true` for each tuple
unfoldable pub put_all : List RelationsTuple → List SimpleTupleKey → List SimpleTupleKey
unfolding simple_tuple_key
put_all [] ks = ks
put_all (t ∷ ts) ks = put_all ts (key_of t ∷ ks)

unfoldable pub create_tuples :
    List RelationsTuple
    → Bool
    → Option FencingCheck
    → SimpleRelations
    → Result Code Text × SimpleRelations
create_tuples ts upsert fencing s = elim s.create_tuples_error [
  | some e ↦ (err e, s)
  | none ↦
      let s' = advance_version (record s { tuples = put_all ts s.tuples }) in
      (ok (format_int64 s'.version), s')
]

unfoldable pub delete_tuples :
    TupleFilter → Option FencingCheck → SimpleRelations → Result Code Text × SimpleRelations
delete_tuples filter fencing s = elim s.delete_tuples_error [
  | some e ↦ (err e, s)
  | none ↦
      let kept = keep (λ k. not (simple_matches_tuple_filter k filter)) s.tuples in
      let s' = advance_version (record s { tuples = kept }) in (ok (format_int64 s'.version), s')
]

unfoldable pub acquire_lock : Text → SimpleRelations → Result Code Text × SimpleRelations
acquire_lock lock_id s = elim s.acquire_lock_error [
  | some e ↦ (err e, s)
  | none ↦
      let token = codes "token-" ++ lock_id in
      (ok token, record s { locks = (lock_id, token) ∷ s.locks })
]

abbrev pub simple_repository : RelationsRepository
simple_repository = record {
  State = SimpleRelations;
  create_tuples = create_tuples;
  delete_tuples = delete_tuples;
  check = check;
  acquire_lock = acquire_lock;
}
