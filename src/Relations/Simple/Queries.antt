-- ===== src/Relations/Simple/Queries.antt =====
-- The bulk checks, the lookups and the reads of internal/data/relations_simple.go. Go ranges over the
-- map of tuples in no fixed order; here the keys come in the order of the store, each once.
use inventory_api.Base.{
  ℕ, zero, suc, ◌+◌, Bool, ◌&&◌, ◌||◌, not, Option, none, some, List, [], ◌∷◌, map, nonempty, Text,
  codes, list_eq, nat_eq, ◌==◌, contains, keep, set_of, format_int64, zero_int64, ◌+◌, Result, ok,
  err,
}
use inventory_api.Model.Consistency.{Consistency}
use inventory_api.Model.References.{
  ResourceReference, SubjectReference, Relationship, RelationsTuple, TupleFilter,
}
use inventory_api.Relations.Codes.{
  Code, CheckBulkResultPair, CheckBulkResult, RepresentationType, RelationsQueries,
}
use inventory_api.Relations.Simple.Keys.{
  SimpleTupleKey, key_eq, simple_tuple_key, simple_matches_tuple_filter, namespace_of,
}
use inventory_api.Relations.Simple.{
  SimpleRelations, get_tuples_for_token, consistency_to_simple_token, advance_version, check,
  check_for_update,
}

abbrev pub pair_in : List SimpleTupleKey → Relationship → CheckBulkResultPair
pair_in tuples rel = record {
  request = rel;
  result = record {
    allowed = contains (simple_tuple_key rel.object rel.relation rel.subject) tuples;
    error = none;
    error_code = 0;
  };
}

unfoldable pub check_bulk :
    List Relationship → Consistency → SimpleRelations → Result Code CheckBulkResult
unfolding get_tuples_for_token consistency_to_simple_token
check_bulk rels c s =
    let tuples = get_tuples_for_token (consistency_to_simple_token c) s in
    ok (record { pairs = map (pair_in tuples) rels; consistency_token = format_int64 s.version })

unfoldable pub check_for_update_bulk :
    List Relationship → SimpleRelations → Result Code CheckBulkResult
check_for_update_bulk rels s =
    ok (record { pairs = map (pair_in s.tuples) rels; consistency_token = format_int64 s.version })

-- A requested name that is empty matches every name.
abbrev pub empty_or : Text → Text → Bool
empty_or requested name = not (nonempty requested) || name == requested

abbrev text_or_empty : Option Text → Text
text_or_empty none = []
text_or_empty (some t) = t

abbrev pub object_of : SimpleTupleKey → ResourceReference
object_of k = record {
  resource_type = k.resource_type;
  resource_id = k.resource_id;
  reporter = some (record { reporter_type = k.resource_namespace; instance_id = none });
}

abbrev pub subject_of : SimpleTupleKey → SubjectReference
subject_of k = record {
  resource = record {
    resource_type = k.subject_type;
    resource_id = k.subject_id;
    reporter = some (record { reporter_type = k.subject_namespace; instance_id = none });
  };
  relation = none;
}

-- The condition of LookupObjects on a key.
unfoldable pub is_object_of : RepresentationType → Text → SubjectReference → SimpleTupleKey → Bool
is_object_of wanted relation subject k =
    empty_or (text_or_empty wanted.reporter_type) k.resource_namespace
    && empty_or wanted.resource_type k.resource_type
    && k.relation == relation
    && k.subject_namespace == namespace_of subject.resource
    && k.subject_type == subject.resource.resource_type
    && k.subject_id == subject.resource.resource_id

-- An item of a stream, without its continuation token, which is empty.
unfoldable pub lookup_objects :
    RepresentationType → Text → SubjectReference → SimpleRelations → List ResourceReference
unfolding is_object_of
lookup_objects wanted relation subject s =
    map object_of (keep (is_object_of wanted relation subject) (set_of s.tuples))

-- The condition of LookupSubjects on a key.
unfoldable pub is_subject_of : ResourceReference → Text → RepresentationType → SimpleTupleKey → Bool
is_subject_of object relation wanted k =
    k.resource_namespace == namespace_of object
    && k.resource_type == object.resource_type
    && k.resource_id == object.resource_id
    && k.relation == relation
    && empty_or (text_or_empty wanted.reporter_type) k.subject_namespace
    && empty_or wanted.resource_type k.subject_type

unfoldable pub lookup_subjects :
    ResourceReference → Text → RepresentationType → SimpleRelations → List SubjectReference
unfolding is_subject_of
lookup_subjects object relation wanted s =
    map subject_of (keep (is_subject_of object relation wanted) (set_of s.tuples))

abbrev pub tuple_of : SimpleTupleKey → RelationsTuple
tuple_of k = record { object = object_of k; relation = k.relation; subject = subject_of k }

-- The items of ReadTuples, without their two tokens, which are empty.
unfoldable pub read_tuples : TupleFilter → SimpleRelations → List RelationsTuple
unfolding simple_matches_tuple_filter
read_tuples filter s =
    map tuple_of (keep (λ k. simple_matches_tuple_filter k filter) (set_of s.tuples))

-- The three streams: the items and how many of them were received. `none` is io.EOF.
pub record Stream {ℓ} (A : Type ℓ) : Type ℓ where
  pub results : List A
  pub index : ℕ

unfoldable pub item_at {ℓ} : {A : Type ℓ} → ℕ → List A → Option A
item_at i [] = none
item_at zero (x ∷ xs) = some x
item_at (suc i) (x ∷ xs) = item_at i xs

unfoldable pub recv {ℓ} : {A : Type ℓ} → Stream A → Option A × Stream A
unfolding item_at
recv s = elim (item_at s.index s.results) [
  | none ↦ (none, s)
  | some x ↦ (some x, record s { index = s.index + 1 })
]

-- Grant: a direct permission of a principal.
unfoldable pub grant : Text → Text → Text → Text → Text → SimpleRelations → SimpleRelations
unfolding advance_version
grant subject_id relation namespace resource_type resource_id s =
    let key : SimpleTupleKey = record {
      resource_namespace = namespace;
      resource_type = resource_type;
      resource_id = resource_id;
      relation = relation;
      subject_namespace = codes "rbac";
      subject_type = codes "principal";
      subject_id = subject_id;
    } in
    advance_version (record s { tuples = key ∷ s.tuples })

unfoldable pub clear_snapshots : SimpleRelations → SimpleRelations
clear_snapshots s = record s { snapshots = [] }

-- Reset
unfoldable pub reset : SimpleRelations → SimpleRelations
reset s = record {
  version = zero_int64 + 1;
  tuples = [];
  snapshots = [];
  health_error = none;
  create_tuples_error = none;
  delete_tuples_error = none;
  acquire_lock_error = none;
  locks = [];
}

-- Health: the status and its HTTP code.
unfoldable pub health : SimpleRelations → Result Code (Text × ℕ)
health s = elim s.health_error [ some e ↦ err e | none ↦ ok (codes "OK", 200) ]

unfoldable pub set_health_error : Option Code → SimpleRelations → SimpleRelations
set_health_error e s = record s { health_error = e }

unfoldable pub set_create_tuples_error : Option Code → SimpleRelations → SimpleRelations
set_create_tuples_error e s = record s { create_tuples_error = e }

unfoldable pub set_delete_tuples_error : Option Code → SimpleRelations → SimpleRelations
set_delete_tuples_error e s = record s { delete_tuples_error = e }

unfoldable pub set_acquire_lock_error : Option Code → SimpleRelations → SimpleRelations
set_acquire_lock_error e s = record s { acquire_lock_error = e }

-- The queries of the store, at one state of it. A page is not asked for: the store gives all items.
abbrev pub simple_queries : RelationsQueries SimpleRelations
simple_queries = record {
  check = λ rel c s. (check rel c s).0;
  check_for_update = λ rel s. (check_for_update rel s).0;
  check_bulk = check_bulk;
  check_for_update_bulk = check_for_update_bulk;
  lookup_objects = λ wanted relation subject c s. ok (lookup_objects wanted relation subject s);
  lookup_subjects =
      λ object relation wanted subject_relation c s. ok (lookup_subjects object relation wanted s);
  read_tuples = λ filter c s. ok (read_tuples filter s);
}
