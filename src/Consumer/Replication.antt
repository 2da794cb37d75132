-- ===== src/Consumer/Replication.antt =====
-- internal/consumer/consumer.go: CreateTuple, UpdateTuple, DeleteTuple, tupleToFilter and Retry,
-- over any relations backend. The state of the backend is passed on, also where a call fails.
use inventory_api.Base.{
  ℕ, zero, suc, true, Option, none, some, List, [], ◌∷◌, nonempty, Text, if◌then◌else◌, Result, ok,
  err, on_result, on_option,
}
use inventory_api.Model.Consistency.{minimize_latency}
use inventory_api.Model.References.{ResourceReference, RelationsTuple, Relationship, TupleFilter}
use inventory_api.Model.Tuples.{has_tuples}
use inventory_api.Relations.Codes.{
  Code, failed_precondition, already_exists, FencingCheck, RelationsRepository,
}

pub data Failure : Type 0 where
  no_tuples max_retries bad_message nil_tuples : Failure
  invalid_fencing_token fetching_token creating_tuple deleting_tuple acquiring_lock : Code → Failure
  commit_failed close_failed closed invalid_lock_id : Failure
  finding_representations calculating_tuples : Failure

abbrev reporter_type_of : ResourceReference → Option Text
reporter_type_of r = elim r.reporter [ none ↦ none | some p ↦ some p.reporter_type ]

-- tupleToFilter: every part of the tuple that is there becomes a part of the filter.
unfoldable pub tuple_to_filter : RelationsTuple → TupleFilter
tuple_to_filter t = record {
  object_type = some t.object.resource_type;
  reporter_type = reporter_type_of t.object;
  object_id = some t.object.resource_id;
  relation = some t.relation;
  subject = some (record {
    subject_type = some t.subject.resource.resource_type;
    reporter_type = reporter_type_of t.subject.resource;
    subject_id = some t.subject.resource.resource_id;
    relation = t.subject.relation;
  });
}

-- What DeleteTuple makes of an error of the backend.
unfoldable pub delete_error : Code → Failure
delete_error failed_precondition = invalid_fencing_token failed_precondition
delete_error e = deleting_tuple e

module _ (R : RelationsRepository) (fencing : FencingCheck) where
  -- An operation on the backend that may fail.
  abbrev pub Call : Type 0 → Type 0
  Call A = R.State → Result Failure A × R.State

  -- The tuple is there already: a check of the first one gives a token to go on with.
  unfoldable pub token_by_check : RelationsTuple → Call Text
  token_by_check t s =
      let rel : Relationship = record {
        object = t.object;
        relation = t.relation;
        subject = t.subject;
      } in
      on_result (R.check rel minimize_latency s) (λ c s'. (ok c.consistency_token, s'))
        (λ e s'. (err (fetching_token e), s'))

  -- What CreateTuple makes of an error of the backend.
  unfoldable pub create_error : Code → RelationsTuple → Call Text
  unfolding token_by_check
  create_error failed_precondition first s = (err (invalid_fencing_token failed_precondition), s)
  create_error already_exists first s = token_by_check first s
  create_error e first s = (err (creating_tuple e), s)

  unfoldable pub create_tuple : Option (List RelationsTuple) → Call Text
  unfolding create_error
  create_tuple none s = (err no_tuples, s)
  create_tuple (some []) s = (err no_tuples, s)
  create_tuple (some (t ∷ ts)) s =
      on_result (R.create_tuples (t ∷ ts) true (some fencing) s) (λ token s'. (ok token, s'))
        (λ e s'. create_error e t s')

  -- The loop of DeleteTuple: the first token that is not empty is kept, and an error ends the loop
  -- with the tuples before it deleted.
  unfoldable pub delete_tuple_from : Text → List RelationsTuple → Call Text
  unfolding tuple_to_filter delete_error
  delete_tuple_from token [] s = (ok token, s)
  delete_tuple_from token (t ∷ ts) s =
      on_result (R.delete_tuples (tuple_to_filter t) (some fencing) s)
        (λ new s'. delete_tuple_from (if nonempty token then token else new) ts s')
        (λ e s'. (err (delete_error e), s'))

  unfoldable pub delete_tuple : List RelationsTuple → Call Text
  unfolding delete_tuple_from
  delete_tuple = delete_tuple_from []

  abbrev pub tuples_in : Option (List RelationsTuple) → List RelationsTuple
  tuples_in none = []
  tuples_in (some ts) = ts

  -- The second half of UpdateTuple, with the token of the first.
  unfoldable pub delete_old_tuples : Text → Option (List RelationsTuple) → Call Text
  unfolding delete_tuple
  delete_old_tuples token deletes s =
      if has_tuples deletes
      then on_result (delete_tuple (tuples_in deletes) s)
          (λ new s'. (ok (if nonempty token then token else new), s')) (λ e s'. (err e, s'))
      else (ok token, s)

  unfoldable pub update_tuple :
      Option (List RelationsTuple) → Option (List RelationsTuple) → Call Text
  unfolding create_tuple delete_old_tuples
  update_tuple creates deletes s =
      if has_tuples creates
      then on_result (create_tuple creates s) (λ token s'. delete_old_tuples token deletes s')
          (λ e s'. (err e, s'))
      else delete_old_tuples [] deletes s

-- The rounds of the loop of Retry; `none` if none of them succeeded. The waits in between are not
-- modelled.
unfoldable pub attempts {ℓ} : {S : Type ℓ} → ℕ → (S → Result Failure Text × S) → S → Option Text × S
attempts zero operation s = (none, s)
attempts (suc n) operation s =
    on_result (operation s) (λ token s'. (some token, s')) (λ e s'. attempts n operation s')

-- OperationMaxRetries: -1 is no limit. A lower number allows no attempt, like 0.
pub data RetryLimit : Type 0 where
  unlimited : RetryLimit
  limited : ℕ → RetryLimit

-- Retry. Without a limit the loop is run for `rounds` rounds; `none` says that it still goes on.
unfoldable pub retry {ℓ} :
    {S : Type ℓ}
    → RetryLimit
    → ℕ
    → (S → Result Failure Text × S)
    → S
    → Option (Result Failure Text) × S
unfolding attempts
retry (limited n) rounds operation s =
    on_option (attempts n operation s) (λ token s'. (some (ok token), s'))
      (λ s'. (some (err max_retries), s'))
retry unlimited rounds operation s =
    on_option (attempts rounds operation s) (λ token s'. (some (ok token), s')) (λ s'. (none, s'))
