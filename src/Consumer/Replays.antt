-- ===== src/Consumer/Replays.antt =====
-- UpdateTuple of internal/consumer/consumer.go, run again: Kafka may deliver a message twice, and
-- Retry runs the operation again after it failed half way.
use inventory_api.Base.{
  ◌≡◌, refl, ap, ◌∙◌, true, ◌&&◌, ◌||◌, not, none, some, List, [], ◌∷◌, map, arith, Text, contains,
  All, Result, ok, err, format_int64,
}
use inventory_api.Model.References.{RelationsTuple, TupleFilter}
use inventory_api.Model.Tuples.{pointer_to}
use inventory_api.Relations.Codes.{Code, FencingCheck}
use inventory_api.Relations.Simple.Keys.{SimpleTupleKey, key_eq}
use inventory_api.Relations.Simple.{
  SimpleRelations, key_of, simple_repository, delete_tuples, advance_version,
}
use inventory_api.Relations.Simple.Writes.{IsHealthy, created, create_tuples_lem, contains-put_all}
use inventory_api.Consumer.Replication.{
  Failure, update_tuple, create_tuple, delete_error, delete_old_tuples, delete_tuple,
  delete_tuple_from, tuple_to_filter,
}
use inventory_api.Consumer.Replicated.{IsQualified, contains-update_tuple, update_tuple-IsHealthy}

abbrev pub HasSameTuples : SimpleRelations → SimpleRelations → Type 0
HasSameTuples s s' = (k : SimpleTupleKey) → contains k s.tuples ≡ contains k s'.tuples

module _ (fencing : FencingCheck) (creates deletes : List RelationsTuple) where
  -- The consumer's handling of one message, on the simple backend.
  abbrev pub update : SimpleRelations → Result Failure Text × SimpleRelations
  update = update_tuple simple_repository fencing (pointer_to creates) (pointer_to deletes)

  pub contains-update :
      (s : SimpleRelations)
      → IsHealthy s
      → All IsQualified deletes
      → (k : SimpleTupleKey)
      → contains k (update s).1.tuples ≡ (
          (contains k (map key_of creates) || contains k s.tuples)
          && not (contains k (map key_of deletes)))
  contains-update s h q k =
      let (token, t, e, after) = contains-update_tuple fencing creates deletes s h q in
      ap (λ (x : Result Failure Text × SimpleRelations). contains k x.1.tuples) e ∙ after k

  -- On a backend without injected errors, a second run of UpdateTuple, as after a message that was
  -- delivered twice, changes no tuple, if every tuple to delete is qualified.
  pub update-update :
      (s : SimpleRelations)
      → IsHealthy s
      → All IsQualified deletes
      → HasSameTuples (update (update s).1).1 (update s).1
  update-update s h q k = ground (
    arith,
    contains-update s h q k,
    contains-update (update s).1 (update_tuple-IsHealthy fencing creates deletes s h) q k,
  )

-- A backend that refuses to delete, and one that has recovered.
abbrev pub failing_deletes : Code → SimpleRelations → SimpleRelations
failing_deletes e s = record s { delete_tuples_error = some e }

abbrev pub recovered : SimpleRelations → SimpleRelations
recovered s = record s { delete_tuples_error = none }

create_tuples_of : List RelationsTuple → SimpleRelations → SimpleRelations
create_tuples_of [] s = s
create_tuples_of (t ∷ ts) s = created (t ∷ ts) s

module _ (fencing : FencingCheck) (e : Code) where
  -- The result of the second half of UpdateTuple.
  abbrev pub delete_result : List RelationsTuple → Text → Result Failure Text
  delete_result [] token = ok token
  delete_result (t ∷ ts) token = err (delete_error e)

  delete_tuples-failing :
      (f : TupleFilter) (s : SimpleRelations)
      → s.delete_tuples_error ≡ some e
      → delete_tuples f (some fencing) s ≡ (err e, s)
  unfolding delete_tuples
  delete_tuples-failing f s h = ground arith

  delete_old_tuples-failing :
      (token : Text) (deletes : List RelationsTuple) (s : SimpleRelations)
      → s.delete_tuples_error ≡ some e
      → delete_old_tuples simple_repository fencing token (pointer_to deletes) s
        ≡ (delete_result deletes token, s)
  unfolding delete_old_tuples delete_tuple delete_tuple_from
  delete_old_tuples-failing token [] s h = refl
  delete_old_tuples-failing token (t ∷ ts) s h =
      rw (delete_tuples-failing (tuple_to_filter t) s h) refl

  create_tuples-failing :
      (t : RelationsTuple) (ts : List RelationsTuple) (s : SimpleRelations)
      → IsHealthy s
      → create_tuple simple_repository fencing (some (t ∷ ts)) (failing_deletes e s) ≡ (
        ok (format_int64 (created (t ∷ ts) (failing_deletes e s)).version),
        created (t ∷ ts) (failing_deletes e s),
      )
  unfolding create_tuple
  create_tuples-failing t ts s h =
      rw (create_tuples_lem (t ∷ ts) true (some fencing) (failing_deletes e s) h.0) refl

  update-failing :
      (creates deletes : List RelationsTuple) (s : SimpleRelations)
      → IsHealthy s
      → (token : Text) × (update fencing creates deletes (failing_deletes e s)
          ≡ (delete_result deletes token, create_tuples_of creates (failing_deletes e s)))
  unfolding update_tuple create_tuples_of advance_version
  update-failing [] deletes s h =
      ([], delete_old_tuples-failing [] deletes (failing_deletes e s) refl)
  update-failing (t ∷ ts) deletes s h =
      let s' = created (t ∷ ts) (failing_deletes e s) in
      (
        format_int64 s'.version,
        rw (create_tuples-failing t ts s h)
            (delete_old_tuples-failing (format_int64 s'.version) deletes s' refl),
      )

  contains-create_tuples_of :
      (k : SimpleTupleKey) (creates : List RelationsTuple) (s : SimpleRelations)
      → contains k (create_tuples_of creates s).tuples
        ≡ (contains k (map key_of creates) || contains k s.tuples)
  unfolding create_tuples_of advance_version contains
  contains-create_tuples_of k [] s = refl
  contains-create_tuples_of k (t ∷ ts) s = contains-put_all k (t ∷ ts) s.tuples

  create_tuples_of-recovered :
      (creates : List RelationsTuple) (s : SimpleRelations)
      → IsHealthy s
      → IsHealthy (recovered (create_tuples_of creates (failing_deletes e s)))
  unfolding create_tuples_of advance_version
  create_tuples_of-recovered [] s h = (h.0, refl)
  create_tuples_of-recovered (t ∷ ts) s h = (h.0, refl)

  -- UpdateTuple on a backend that cannot delete and is healthy otherwise, and again when it can, with
  -- every tuple to delete qualified: if there is something to delete, the first run reports the error of
  -- the backend; in any case the second run leaves the same tuples as a single run that meets no error.
  pub update-recovered :
      (creates deletes : List RelationsTuple) (s : SimpleRelations)
      → IsHealthy s
      → All IsQualified deletes
      → (token : Text) × ((update fencing creates deletes (failing_deletes e s)).0
          ≡ delete_result deletes token)
        × HasSameTuples
            (update fencing creates deletes
              (recovered (update fencing creates deletes (failing_deletes e s)).1)).1
            (update fencing creates deletes s).1
  update-recovered creates deletes s h q =
      let (token, first) = update-failing creates deletes s h in
      let s1 = recovered (create_tuples_of creates (failing_deletes e s)) in
      (
        token,
        ap (λ (x : Result Failure Text × SimpleRelations). x.0) first,
        λ k.
            ap
              (λ (x : Result Failure Text × SimpleRelations).
                contains k (update fencing creates deletes (recovered x.1)).1.tuples)
              first
            ∙ ground (
              arith,
              contains-update fencing creates deletes s1 (create_tuples_of-recovered creates s h) q
                  k,
              contains-update fencing creates deletes s h q k,
              contains-create_tuples_of k creates (failing_deletes e s),
            ),
      )
