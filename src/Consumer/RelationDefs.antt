-- ===== src/Consumer/RelationDefs.antt =====
-- The tuples of the simple backend after the consumer has written what
-- CalculateTuplesFromRelationDefs of internal/biz/model/schema.go says.
use inventory_api.Base.{
  ◌≡◌, ◌≢◌, refl, ap, ◌∙◌, Bool, false, ◌&&◌, ◌||◌, not, Option, some, List, [], ◌∷◌, ◌++◌, map,
  arith, Text, list_eq, nat_eq, ◌==◌, ==_iff, contains, find_first, All, Bool-cases, inl, inr,
  find_first-holds, ok, IsDistinct,
}
use inventory_api.Model.ReporterResource.{ReporterResourceKey}
use inventory_api.Model.References.{RelationsTuple, new_relation_tuple_for_subject}
use inventory_api.Model.Tuples.{values_only_in, diff_relation_values, new_tuples_to_replicate}
use inventory_api.Model.Representations.{Representations}
use inventory_api.Model.Schema.{
  RelationDef, calculate_tuples_from_relation_defs, diff_relations, relation_values,
}
use inventory_api.Relations.Codes.{FencingCheck}
use inventory_api.Relations.Simple.Keys.{SimpleTupleKey, key_eq, simple_tuple_key}
use inventory_api.Relations.Simple.{SimpleRelations, key_of, simple_repository}
use inventory_api.Relations.Simple.Writes.{IsHealthy}
use inventory_api.Consumer.Replication.{update_tuple}
use inventory_api.Consumer.Replicated.{IsQualified, contains-update_tuple}
use inventory_api.Consumer.Differences.{
  tuple_for, key_for, contains-key_for, contains-key_for_ne, contains-values_only_in, All-tuple_for,
}

-- The key that a value of a relation has in the backend.
abbrev pub key_in : ReporterResourceKey → RelationDef → Text → SimpleTupleKey
key_in key rel v = key_for key rel.relation_name rel.subject_namespace rel.subject_resource_type v

abbrev tuple_in : ReporterResourceKey → RelationDef → Text → RelationsTuple
tuple_in key rel v =
    tuple_for key rel.relation_name rel.subject_namespace rel.subject_resource_type v

abbrev is_called : Text → RelationDef → Bool
is_called name rel = rel.relation_name == name

-- The definition of a relation, by its name.
abbrev pub relation_def_at : Text → List RelationDef → Option RelationDef
relation_def_at name rels = find_first (is_called name) rels

abbrev pub names_of : List RelationDef → List Text
names_of = map (λ (rel : RelationDef). rel.relation_name)

-- The tuples that one definition contributes, with `xs` and `ys` in the two versions.
abbrev added :
    ReporterResourceKey
    → RelationDef
    → Option Representations
    → Option Representations
    → List RelationsTuple
added key rel xs ys =
    map (tuple_in key rel) (values_only_in (relation_values rel xs) (relation_values rel ys))

-- The loop, for one of the two lists.
added_all :
    ReporterResourceKey
    → List RelationDef
    → Option Representations
    → Option Representations
    → List RelationsTuple
added_all key [] xs ys = []
added_all key (rel ∷ rels) xs ys = added key rel xs ys ++ added_all key rels xs ys

diff_relations_lem :
    (key : ReporterResourceKey) (rels : List RelationDef)
    (current previous : Option Representations)
    → diff_relations rels current previous key
      ≡ (added_all key rels current previous, added_all key rels previous current)
unfolding diff_relations added_all diff_relation_values
diff_relations_lem key [] current previous = refl
diff_relations_lem key (rel ∷ rels) current previous =
    rw (diff_relations_lem key rels current previous) refl

key_in_ne :
    (key : ReporterResourceKey) (a b : RelationDef) (v w : Text)
    → (a.relation_name == b.relation_name) ≡ false
    → key_in key a v ≢ key_in key b w
unfolding simple_tuple_key new_relation_tuple_for_subject
key_in_ne key a b v w h e =
    ground
      (arith, ap (λ (k : SimpleTupleKey). k.relation) e, ==_iff a.relation_name b.relation_name)

map-append-contains :
    (k : SimpleTupleKey) (ts us : List RelationsTuple)
    → contains k (map key_of (ts ++ us))
      ≡ (contains k (map key_of ts) || contains k (map key_of us))
unfolding contains
map-append-contains k [] us = refl
map-append-contains k (t ∷ ts) us = ground (arith, map-append-contains k ts us)

All-append-Qualified :
    (ts us : List RelationsTuple)
    → All IsQualified ts
    → All IsQualified us
    → All IsQualified (ts ++ us)
All-append-Qualified [] us h k = k
All-append-Qualified (t ∷ ts) us h k = (h.0, All-append-Qualified ts us h.1 k)

added_all-IsQualified :
    (key : ReporterResourceKey) (rels : List RelationDef) (xs ys : Option Representations)
    → All IsQualified (added_all key rels xs ys)
unfolding added_all
added_all-IsQualified key [] xs ys = tt
added_all-IsQualified key (rel ∷ rels) xs ys =
    All-append-Qualified (added key rel xs ys) (added_all key rels xs ys)
      (All-tuple_for key rel.relation_name rel.subject_namespace rel.subject_resource_type
        (values_only_in (relation_values rel xs) (relation_values rel ys)))
      (added_all-IsQualified key rels xs ys)

module _ (key : ReporterResourceKey) (xs ys : Option Representations) where
  contains-added :
      (rel : RelationDef) (v : Text)
      → contains (key_in key rel v) (map key_of (added key rel xs ys))
        ≡ (contains v (relation_values rel xs) && not (contains v (relation_values rel ys)))
  contains-added rel v =
      contains-key_for key rel.relation_name rel.subject_namespace rel.subject_resource_type v
        (values_only_in (relation_values rel xs) (relation_values rel ys))
      ∙ contains-values_only_in v (relation_values rel xs) (relation_values rel ys)

  contains-added_ne :
      (rel other : RelationDef) (v : Text)
      → (other.relation_name == rel.relation_name) ≡ false
      → contains (key_in key rel v) (map key_of (added key other xs ys)) ≡ false
  contains-added_ne rel other v h =
      contains-key_for_ne key other.relation_name other.subject_namespace
        other.subject_resource_type (key_in key rel v)
        (values_only_in (relation_values other xs) (relation_values other ys))
        (λ w. key_in_ne key other rel w v h)

  -- A relation that no definition is called like gets no tuple.
  contains-added_all_ne :
      (rel : RelationDef) (rels : List RelationDef) (v : Text)
      → contains rel.relation_name (names_of rels) ≡ false
      → contains (key_in key rel v) (map key_of (added_all key rels xs ys)) ≡ false
  unfolding added_all contains
  contains-added_all_ne rel [] v h = refl
  contains-added_all_ne rel (r ∷ rels) v h = ground (
    arith,
    map-append-contains (key_in key rel v) (added key r xs ys) (added_all key rels xs ys),
    contains-added_all_ne rel rels v,
    contains-added_ne rel r v,
  )

  -- A tuple of a relation is written for the values that the other version lacks.
  contains-added_all :
      (name : Text) (rel : RelationDef) (rels : List RelationDef) (v : Text)
      → IsDistinct (names_of rels)
      → relation_def_at name rels ≡ some rel
      → contains (key_in key rel v) (map key_of (added_all key rels xs ys))
        ≡ (contains v (relation_values rel xs) && not (contains v (relation_values rel ys)))
  unfolding added_all find_first contains
  contains-added_all name rel [] v d e = cc
  contains-added_all name rel (r ∷ rels) v d e =
      rw (map-append-contains (key_in key rel v) (added key r xs ys) (added_all key rels xs ys))
        (elim (Bool-cases (r.relation_name == name)) [
          | inl same ↦
              let p : r ≡ rel = ground arith in
              ground (
                arith,
                contains-added rel v,
                ap (λ (q : RelationDef). map key_of (added key q xs ys)) p,
                ap (λ (q : RelationDef). q.relation_name) p,
                contains-added_all_ne rel rels v,
              )
          | inr other ↦ ground (
            arith,
            contains-added_ne rel r v,
            contains-added_all name rel rels v,
            find_first-holds (is_called name) rels rel,
            ==_iff rel.relation_name name,
          )
        ])

  -- The keys of no relation of the list.
  contains-added_all_other :
      (k : SimpleTupleKey) (rels : List RelationDef)
      → All (λ (rel : RelationDef). (v : Text) → key_in key rel v ≢ k) rels
      → contains k (map key_of (added_all key rels xs ys)) ≡ false
  unfolding added_all contains
  contains-added_all_other k [] h = refl
  contains-added_all_other k (r ∷ rels) h = ground (
    arith,
    map-append-contains k (added key r xs ys) (added_all key rels xs ys),
    contains-added_all_other k rels h.1,
    contains-key_for_ne key r.relation_name r.subject_namespace r.subject_resource_type k
        (values_only_in (relation_values r xs) (relation_values r ys)) h.0,
  )

-- The backend holds, for each relation of the list, the values that a version of the resource has.
abbrev pub Reflects :
    ReporterResourceKey → List RelationDef → Option Representations → SimpleRelations → Type 0
Reflects key rels version s =
    (name : Text) (rel : RelationDef) (v : Text)
    → relation_def_at name rels ≡ some rel
    → contains (key_in key rel v) s.tuples ≡ contains v (relation_values rel version)

-- The keys of no relation of the list have the same value in two states of the backend.
abbrev pub AgreesOutside :
    ReporterResourceKey → List RelationDef → SimpleRelations → SimpleRelations → Type 0
AgreesOutside key rels s s' =
    (k : SimpleTupleKey)
    → All (λ (rel : RelationDef). (v : Text) → key_in key rel v ≢ k) rels
    → contains k s'.tuples ≡ contains k s.tuples

-- A write of the tuples that CalculateTuplesFromRelationDefs makes, to a backend without injected
-- errors. If the relations have different names and the backend holds their values in the previous
-- version, then the write succeeds and the backend holds their values in the current version; every
-- tuple of another relation is as before.
pub update_tuple-calculate_tuples_from_relation_defs :
    (rels : List RelationDef) (current previous : Option Representations)
    (key : ReporterResourceKey) (fencing : FencingCheck) (s : SimpleRelations)
    → IsHealthy s
    → IsDistinct (names_of rels)
    → Reflects key rels previous s
    → let t = calculate_tuples_from_relation_defs rels current previous key in
      (token : Text) × (s' : SimpleRelations) × (update_tuple simple_repository fencing
          t.tuples_to_create t.tuples_to_delete s
        ≡ (ok token, s'))
      × Reflects key rels current s'
      × AgreesOutside key rels s s'
unfolding calculate_tuples_from_relation_defs new_tuples_to_replicate
update_tuple-calculate_tuples_from_relation_defs rels current previous key fencing s h d before =
    let creates = added_all key rels current previous in
    let deletes = added_all key rels previous current in
    let (token, s', e, after) =
      contains-update_tuple fencing creates deletes s h
        (added_all-IsQualified key rels previous current) in
    (
      token,
      s',
      rw (diff_relations_lem key rels current previous) e,
      λ name rel v at. ground (
        arith,
        after (key_in key rel v),
        before name rel v at,
        contains-added_all key current previous name rel rels v d at,
        contains-added_all key previous current name rel rels v d at,
      ),
      λ k other. ground (
        arith,
        after k,
        contains-added_all_other key current previous k rels other,
        contains-added_all_other key previous current k rels other,
      ),
    )
