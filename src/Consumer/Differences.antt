-- ===== src/Consumer/Differences.antt =====
-- The tuples of one relation in the simple backend, after the consumer has written what
-- DiffRelationValues of internal/biz/model/relation_diff.go says.
use inventory_api.Base.{
  ◌≡◌, ◌≢◌, refl, false, ◌&&◌, not, List, [], ◌∷◌, map, arith, Text, list_eq, nat_eq, ◌==◌, ==_iff,
  contains, contains-keep, contains-set_of, set_of, All, ok,
}
use inventory_api.Model.ReporterResource.{ReporterResourceKey}
use inventory_api.Model.References.{RelationsTuple, new_relation_tuple_for_subject}
use inventory_api.Model.Tuples.{pointer_to, values_only_in, diff_relation_values}
use inventory_api.Relations.Codes.{FencingCheck}
use inventory_api.Relations.Simple.Keys.{SimpleTupleKey, key_eq, key_beq, simple_tuple_key}
use inventory_api.Relations.Simple.{SimpleRelations, key_of, simple_repository}
use inventory_api.Relations.Simple.Writes.{IsHealthy}
use inventory_api.Consumer.Replication.{update_tuple}
use inventory_api.Consumer.Replicated.{IsQualified, contains-update_tuple}

-- The tuples of one relation of one resource.
module _ (key : ReporterResourceKey) (relation namespace subject_type : Text) where
  abbrev pub tuple_for : Text → RelationsTuple
  tuple_for = new_relation_tuple_for_subject key relation namespace subject_type

  abbrev pub key_for : Text → SimpleTupleKey
  key_for v = key_of (tuple_for v)

  pub All-tuple_for : (vs : List Text) → All IsQualified (map tuple_for vs)
  unfolding new_relation_tuple_for_subject
  All-tuple_for [] = tt
  All-tuple_for (v ∷ vs) = ((refl, refl), All-tuple_for vs)

  key_for_beq : (v w : Text) → (key_for v == key_for w) ≡ (v == w)
  unfolding key_beq simple_tuple_key new_relation_tuple_for_subject
  key_for_beq v w = ground (
    arith,
    ==_iff key.resource_type key.resource_type,
    ==_iff key.local_resource_id key.local_resource_id,
    ==_iff key.reporter.reporter_type key.reporter.reporter_type,
    ==_iff relation relation,
    ==_iff namespace namespace,
    ==_iff subject_type subject_type,
  )

  pub contains-key_for :
      (v : Text) (vs : List Text)
      → contains (key_for v) (map key_of (map tuple_for vs)) ≡ contains v vs
  unfolding contains
  contains-key_for v [] = refl
  contains-key_for v (w ∷ vs) = ground (arith, key_for_beq w v, contains-key_for v vs)

  -- A key of another relation, resource or type of subject is no key of these tuples.
  pub contains-key_for_ne :
      (k : SimpleTupleKey) (vs : List Text)
      → ((v : Text) → key_for v ≢ k)
      → contains k (map key_of (map tuple_for vs)) ≡ false
  unfolding contains
  contains-key_for_ne k [] h = refl
  contains-key_for_ne k (w ∷ vs) h =
      ground (arith, h w, ==_iff (key_for w) k, contains-key_for_ne k vs h)

pub contains-values_only_in :
    (v : Text) (xs ys : List Text)
    → contains v (values_only_in xs ys) ≡ (contains v xs && not (contains v ys))
unfolding values_only_in
contains-values_only_in v xs ys = ground (
  arith,
  contains-keep v (λ (w : Text). not (contains w (set_of ys))) (set_of xs),
  contains-set_of v xs,
  contains-set_of v ys,
)

-- A backend without injected errors after the consumer has written what DiffRelationValues says. If before the tuples of
-- the relation were those of the previous values, then the write succeeds and afterwards they are
-- those of the current values, and the tuples of every other relation, resource or type of subject
-- are as before.
pub contains-diff_relation_values :
    (key : ReporterResourceKey) (relation namespace subject_type : Text)
    (current previous : List Text) (fencing : FencingCheck) (s : SimpleRelations)
    → IsHealthy s
    → ((v : Text)
        → contains (key_for key relation namespace subject_type v) s.tuples ≡ contains v previous)
    → let (creates, deletes) =
        diff_relation_values key relation namespace subject_type current previous in
      (token : Text) × (s' : SimpleRelations) × (update_tuple simple_repository fencing
          (pointer_to creates)
          (pointer_to deletes)
          s
        ≡ (ok token, s'))
      × ((v : Text)
          → contains (key_for key relation namespace subject_type v) s'.tuples ≡ contains v current)
      × ((k : SimpleTupleKey)
          → ((v : Text) → key_for key relation namespace subject_type v ≢ k)
          → contains k s'.tuples ≡ contains k s.tuples)
unfolding diff_relation_values
contains-diff_relation_values key relation namespace subject_type current previous fencing s h
      before =
    let tuple = tuple_for key relation namespace subject_type in
    let creates : List Text = values_only_in current previous in
    let deletes : List Text = values_only_in previous current in
    let (token, s', e, after) =
      contains-update_tuple fencing (map tuple creates) (map tuple deletes) s h
        (All-tuple_for key relation namespace subject_type deletes) in
    (
      token,
      s',
      e,
      λ v. ground (
        arith,
        after (key_for key relation namespace subject_type v),
        before v,
        contains-key_for key relation namespace subject_type v creates,
        contains-key_for key relation namespace subject_type v deletes,
        contains-values_only_in v current previous,
        contains-values_only_in v previous current,
      ),
      λ k ne. ground (
        arith,
        after k,
        contains-key_for_ne key relation namespace subject_type k creates ne,
        contains-key_for_ne key relation namespace subject_type k deletes ne,
      ),
    )
