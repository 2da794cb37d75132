-- ===== src/Consumer/Locks.antt =====
-- internal/consumer/consumer.go: the RebalanceCallback for assigned partitions, which takes the lock
-- whose token fences the writes.
use inventory_api.Base.{
  ℕ, zero, suc, ◌≡◌, refl, ap, ◌∙◌, ◌⊎◌, inl, inr, Option, none, some, List, [], ◌∷◌, ◌++◌, arith,
  Text, format_int, Result, ok, err, on_result,
}
use inventory_api.Model.Values.{Fallible, new_trimmed}
use inventory_api.Relations.Codes.{Code, RelationsRepository}
use inventory_api.Relations.Simple.{SimpleRelations, simple_repository, acquire_lock}
use inventory_api.Consumer.Replication.{
  Failure, RetryLimit, limited, retry, acquiring_lock, invalid_lock_id, max_retries,
}
use inventory_api.Consumer.Retries.{
  FailsBefore, run_times, retry-ok, retry-err, FirstSuccess, FirstSuccess-cases,
}
use inventory_api.Consumer.Offsets.{TopicPartition, Offsets}

-- NewLockId of the consumer group and the partition.
unfoldable pub lock_id_of : Text → TopicPartition → Fallible Text
unfolding new_trimmed
lock_id_of group p = new_trimmed (group ++ b'/' ∷ format_int p.partition)

module _ (R : RelationsRepository) where
  -- The operation that Retry runs.
  unfoldable pub acquire : Text → R.State → Result Failure Text × R.State
  acquire id r =
      on_result (R.acquire_lock id r) (λ token r'. (ok token, r'))
        (λ e r'. (err (acquiring_lock e), r'))

  abbrev pub Assigned : Type 0
  Assigned = Option (Option Failure) × (Offsets × R.State)

  -- What the callback makes of the result of Retry; `none` if that still runs.
  abbrev pub with_lock : Text → Offsets → Option (Result Failure Text) × R.State → Assigned
  with_lock id s (some (ok token), r) =
      (some none, (record s { lock_id = id; lock_token = token }, r))
  with_lock id s (some (err e), r) =
      (some (some e), (record s { lock_id = id; lock_token = [] }, r))
  with_lock id s (none, r) = (none, (record s { lock_id = id }, r))

  abbrev with_lock_id : RetryLimit → ℕ → Offsets → R.State → Fallible Text → Assigned
  with_lock_id limit rounds s r (err e) = (some (some invalid_lock_id), (s, r))
  with_lock_id limit rounds s r (ok id) = with_lock id s (retry limit rounds (acquire id) r)

  -- RebalanceCallback for assigned partitions, of which it takes the first.
  unfoldable pub assign : RetryLimit → ℕ → Text → List TopicPartition → Offsets → R.State → Assigned
  assign limit rounds group [] s r = (some none, (s, r))
  assign limit rounds group (p ∷ ps) s r = with_lock_id limit rounds s r (lock_id_of group p)

acquire-err :
    (id : Text) (r : SimpleRelations) (e : Code)
    → r.acquire_lock_error ≡ some e
    → acquire simple_repository id r ≡ (err (acquiring_lock e), r)
unfolding acquire acquire_lock
acquire-err id r e h = ground arith

run_times-acquire :
    (id : Text) (e : Code) (n : ℕ) (r : SimpleRelations)
    → r.acquire_lock_error ≡ some e
    → run_times (acquire simple_repository id) n r ≡ r
unfolding run_times
run_times-acquire id e zero r h = refl
run_times-acquire id e (suc n) r h = rw (acquire-err id r e h) (run_times-acquire id e n r h)

acquire-FailsBefore :
    (id : Text) (e : Code) (n : ℕ) (r : SimpleRelations)
    → r.acquire_lock_error ≡ some e
    → FailsBefore (acquire simple_repository id) n r
acquire-FailsBefore id e n r h j below =
    rw (run_times-acquire id e j r h, acquire-err id r e h) refl

assign-retry :
    (R : RelationsRepository) (limit : RetryLimit) (rounds : ℕ) (group id : Text)
    (p : TopicPartition) (ps : List TopicPartition) (s : Offsets) (r : R.State)
    → lock_id_of group p ≡ ok id
    → assign R limit rounds group (p ∷ ps) s r
      ≡ with_lock R id s (retry limit rounds (acquire R id) r)
unfolding assign
assign-retry R limit rounds group id p ps s r h = ap (with_lock_id R limit rounds s r) h

-- Partitions are assigned, with a lock id that is no blank text, over any backend and with a limit on the
-- attempts. If one of the attempts within the limit succeeds, the callback reports no error, the consumer
-- has the token of the first that does, for its own lock id, and the backend is as that attempt leaves it.
-- If all of them fail, it reports that the retries are used up, the token of an earlier assignment is
-- gone, and the backend is as the last attempt leaves it. One of the two is the case.
pub assign-FirstSuccess :
    (R : RelationsRepository) (n rounds : ℕ) (group id : Text) (p : TopicPartition)
    (ps : List TopicPartition) (s : Offsets) (r : R.State)
    → lock_id_of group p ≡ ok id
    → ((f : FirstSuccess (acquire R id) n r) × (assign R (limited n) rounds group (p ∷ ps) s r
          ≡ (some none, (record s { lock_id = id; lock_token = f.token }, f.state))))
      ⊎ (FailsBefore (acquire R id) n r
          × (assign R (limited n) rounds group (p ∷ ps) s r ≡ (
            some (some max_retries),
            (record s { lock_id = id; lock_token = [] }, run_times (acquire R id) n r),
          )))
assign-FirstSuccess R n rounds group id p ps s r h =
    let start = assign-retry R (limited n) rounds group id p ps s r h in
    elim (FirstSuccess-cases (acquire R id) n r) [
      | inl f ↦ inl (
        f,
        start
            ∙ ap (with_lock R id s) (
                retry-ok (acquire R id) (limited n) rounds f.earlier f.token r f.state f.within
                  f.failing f.success),
      )
      | inr fails ↦
          inr (fails, start ∙ ap (with_lock R id s) (retry-err (acquire R id) n rounds r fails))
    ]

-- Partitions are assigned while the simple backend refuses locks, with a lock id that is no blank text:
-- after the attempts that the limit allows, the callback reports that the retries are used up, and the
-- token of an earlier assignment is gone.
pub assign-err :
    (n rounds : ℕ) (group id : Text) (p : TopicPartition) (ps : List TopicPartition) (s : Offsets)
    (r : SimpleRelations) (e : Code)
    → lock_id_of group p ≡ ok id
    → r.acquire_lock_error ≡ some e
    → assign simple_repository (limited n) rounds group (p ∷ ps) s r
      ≡ (some (some max_retries), (record s { lock_id = id; lock_token = [] }, r))
assign-err n rounds group id p ps s r e h k =
    assign-retry simple_repository (limited n) rounds group id p ps s r h
    ∙ ap (with_lock simple_repository id s) (
        retry-err (acquire simple_repository id) n rounds r (acquire-FailsBefore id e n r k)
        ∙ ap (λ (q : SimpleRelations). (some (err max_retries), q)) (run_times-acquire id e n r k))
