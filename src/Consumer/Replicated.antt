-- ===== src/Consumer/Replicated.antt =====
-- The tuples of the simple backend after the consumer has written what changed. The statements are
-- about membership, so the order in which Go ranges over a map does not matter.
use inventory_api.Base.{
  ◌≡◌, refl, true, ◌&&◌, ◌||◌, not, some, List, [], ◌∷◌, map, arith, Text, list_eq, nat_eq, ◌==◌,
  if◌then◌else◌, contains, contains-keep, All, nonempty, is_some, ok, format_int64,
}
use inventory_api.Model.References.{RelationsTuple}
use inventory_api.Model.Tuples.{pointer_to}
use inventory_api.Relations.Codes.{FencingCheck}
use inventory_api.Relations.Simple.Keys.{
  SimpleTupleKey, key_eq, key_beq, simple_tuple_key, simple_matches_tuple_filter,
}
use inventory_api.Relations.Simple.{SimpleRelations, key_of, simple_repository, advance_version}
use inventory_api.Relations.Simple.Writes.{
  contains-put_all, created, without, create_tuples_lem, delete_tuples_lem, IsHealthy,
  created-IsHealthy, without-IsHealthy,
}
use inventory_api.Consumer.Replication.{
  tuple_to_filter, create_tuple, delete_tuple, delete_tuple_from, delete_old_tuples, update_tuple,
}

-- Both ends of the tuple name their reporter, as those of every tuple that the program makes do.
abbrev pub IsQualified : RelationsTuple → Type 0
IsQualified t = (is_some t.object.reporter ≡ true) × (is_some t.subject.resource.reporter ≡ true)

-- The filter that the consumer makes of a qualified tuple matches the key of that tuple and no other.
pub simple_matches_tuple_filter-tuple_to_filter :
    (k : SimpleTupleKey) (t : RelationsTuple)
    → IsQualified t
    → simple_matches_tuple_filter k (tuple_to_filter t) ≡ (key_of t == k)
unfolding simple_matches_tuple_filter tuple_to_filter key_beq simple_tuple_key
simple_matches_tuple_filter-tuple_to_filter k t h = ground arith

without_all : List RelationsTuple → SimpleRelations → SimpleRelations
without_all [] s = s
without_all (t ∷ ts) s = without_all ts (without (tuple_to_filter t) s)

contains-without_all :
    (k : SimpleTupleKey) (ts : List RelationsTuple) (s : SimpleRelations)
    → All IsQualified ts
    → contains k (without_all ts s).tuples
      ≡ (contains k s.tuples && not (contains k (map key_of ts)))
unfolding without_all contains advance_version
contains-without_all k [] s q = ground arith
contains-without_all k (t ∷ ts) s q = ground (
  arith,
  contains-without_all k ts (without (tuple_to_filter t) s),
  contains-keep k (λ (j : SimpleTupleKey). not (simple_matches_tuple_filter j (tuple_to_filter t)))
      s.tuples,
  simple_matches_tuple_filter-tuple_to_filter k t,
)

without_all-IsHealthy :
    (ts : List RelationsTuple) (s : SimpleRelations) → IsHealthy s → IsHealthy (without_all ts s)
unfolding without_all
without_all-IsHealthy [] s h = h
without_all-IsHealthy (t ∷ ts) s h =
    without_all-IsHealthy ts (without (tuple_to_filter t) s)
      (without-IsHealthy (tuple_to_filter t) s h)

module _ (fencing : FencingCheck) where
  -- On a healthy backend the loop of DeleteTuple ends with a token and takes every tuple out.
  delete_tuple_from_lem :
      (token : Text) (ts : List RelationsTuple) (s : SimpleRelations)
      → IsHealthy s
      → (new : Text) × (delete_tuple_from simple_repository fencing token ts s
          ≡ (ok new, without_all ts s))
  unfolding delete_tuple_from without_all
  delete_tuple_from_lem token [] s h = (token, refl)
  delete_tuple_from_lem token (t ∷ ts) s h =
      let s' = without (tuple_to_filter t) s in
      let (new, e) =
        delete_tuple_from_lem (if nonempty token then token else format_int64 s'.version) ts s'
          (without-IsHealthy (tuple_to_filter t) s h) in
      (new, rw (delete_tuples_lem (tuple_to_filter t) (some fencing) s h.1) e)

  pub create_tuple_lem :
      (t : RelationsTuple) (ts : List RelationsTuple) (s : SimpleRelations)
      → IsHealthy s
      → create_tuple simple_repository fencing (some (t ∷ ts)) s
        ≡ (ok (format_int64 (created (t ∷ ts) s).version), created (t ∷ ts) s)
  unfolding create_tuple
  create_tuple_lem t ts s h = rw (create_tuples_lem (t ∷ ts) true (some fencing) s h.0)

  delete_old_tuples_lem :
      (token : Text) (ts : List RelationsTuple) (s : SimpleRelations)
      → IsHealthy s
      → (new : Text) × (delete_old_tuples simple_repository fencing token (pointer_to ts) s
          ≡ (ok new, without_all ts s))
  unfolding delete_old_tuples delete_tuple without_all
  delete_old_tuples_lem token [] s h = (token, refl)
  delete_old_tuples_lem token (t ∷ ts) s h =
      let (new, e) = delete_tuple_from_lem [] (t ∷ ts) s h in
      (if nonempty token then token else new, rw e)

  -- The state that UpdateTuple leaves.
  updated : List RelationsTuple → List RelationsTuple → SimpleRelations → SimpleRelations
  updated [] deletes s = without_all deletes s
  updated (t ∷ ts) deletes s = without_all deletes (created (t ∷ ts) s)

  update_tuple_lem :
      (creates deletes : List RelationsTuple) (s : SimpleRelations)
      → IsHealthy s
      → (token : Text) × (update_tuple simple_repository fencing
            (pointer_to creates)
            (pointer_to deletes)
            s
          ≡ (ok token, updated creates deletes s))
  unfolding update_tuple updated
  update_tuple_lem [] deletes s h = delete_old_tuples_lem [] deletes s h
  update_tuple_lem (t ∷ ts) deletes s h =
      let (token, e) =
        delete_old_tuples_lem (format_int64 (created (t ∷ ts) s).version) deletes
          (created (t ∷ ts) s) (created-IsHealthy (t ∷ ts) s h) in
      (token, rw (create_tuple_lem t ts s h) e)

  updated-IsHealthy :
      (creates deletes : List RelationsTuple) (s : SimpleRelations)
      → IsHealthy s
      → IsHealthy (updated creates deletes s)
  unfolding updated
  updated-IsHealthy [] deletes s h = without_all-IsHealthy deletes s h
  updated-IsHealthy (t ∷ ts) deletes s h =
      without_all-IsHealthy deletes (created (t ∷ ts) s) (created-IsHealthy (t ∷ ts) s h)

  pub update_tuple-IsHealthy :
      (creates deletes : List RelationsTuple) (s : SimpleRelations)
      → IsHealthy s
      → IsHealthy
          (update_tuple simple_repository fencing (pointer_to creates) (pointer_to deletes) s).1
  update_tuple-IsHealthy creates deletes s h =
      let (token, e) = update_tuple_lem creates deletes s h in
      rw e (updated-IsHealthy creates deletes s h)

  contains-updated :
      (k : SimpleTupleKey) (creates deletes : List RelationsTuple) (s : SimpleRelations)
      → All IsQualified deletes
      → contains k (updated creates deletes s).tuples ≡ (
          (contains k (map key_of creates) || contains k s.tuples)
          && not (contains k (map key_of deletes)))
  unfolding updated contains advance_version
  contains-updated k [] deletes s q = contains-without_all k deletes s q
  contains-updated k (t ∷ ts) deletes s q = ground (
    arith,
    contains-without_all k deletes (created (t ∷ ts) s) q,
    contains-put_all k (t ∷ ts) s.tuples,
  )

  -- UpdateTuple on a healthy backend succeeds with a token, and then a key is in the backend exactly
  -- if it was there or is created, and is not deleted; every tuple to delete has to be qualified.
  pub contains-update_tuple :
      (creates deletes : List RelationsTuple) (s : SimpleRelations)
      → IsHealthy s
      → All IsQualified deletes
      → (token : Text) × (s' : SimpleRelations) × (update_tuple simple_repository fencing
            (pointer_to creates)
            (pointer_to deletes)
            s
          ≡ (ok token, s'))
        × ((k : SimpleTupleKey)
            → contains k s'.tuples ≡ (
                (contains k (map key_of creates) || contains k s.tuples)
                && not (contains k (map key_of deletes))))
  contains-update_tuple creates deletes s h q =
      let (token, e) = update_tuple_lem creates deletes s h in
      (token, updated creates deletes s, e, λ k. contains-updated k creates deletes s q)
