-- ===== src/Tests/Offsets.antt =====
-- The properties of the offsets and the lock of the consumer at concrete inputs.
use inventory_api.Base.{
  ℕ, ◌≡◌, refl, Bool, true, false, Option, none, some, List, [], ◌∷◌, ◌++◌, arith, Text, codes, ok,
  err, suc, ltb, ◌⊎◌, if◌then◌else◌,
}
use inventory_api.Relations.Codes.{RelationsRepository, unavailable}
use inventory_api.Consumer.Retries.{FirstSuccess, FailsBefore, run_times}
use inventory_api.Relations.Simple.{SimpleRelations, new_simple_relations, simple_repository}
use inventory_api.Consumer.Replication.{commit_failed, limited, max_retries}
use inventory_api.Consumer.Offsets.{TopicPartition, Offsets, shutdown, revoke}
use inventory_api.Consumer.Commits.{
  Step, process, commit, stop, lose, run, processed, offsets_of, offsets_of-run, committed-shutdown,
}
use inventory_api.Consumer.Locks.{assign, acquire, lock_id_of, assign-FirstSuccess, assign-err}

abbrev message : ℕ → TopicPartition
message n = record { topic = codes "events"; partition = 3; offset = n }

abbrev waiting : Offsets
waiting = record {
  storage = message 7 ∷ [];
  committed = [];
  shutdown_in_progress = false;
  is_closed = false;
  lock_id = codes "old";
  lock_token = codes "token-old";
}

abbrev steps : List Step
steps =
    process (message 8)
    ∷ commit (some commit_failed) (message 9 ∷ [])
    ∷ lose none
    ∷ process (message 10)
    ∷ stop none none
    ∷ lose none
    ∷ []

offsets_of-run_example : offsets_of (run steps waiting) ≡ offsets_of waiting ++ processed steps
offsets_of-run_example = offsets_of-run steps waiting

committed-shutdown_example :
    let s' = (shutdown none none waiting).1 in
    (s'.storage ≡ [])
    × (s'.committed ≡ offsets_of waiting)
    × (s'.is_closed ≡ true)
    × ((revoke none s').1.committed ≡ s'.committed)
committed-shutdown_example = committed-shutdown waiting none refl

lock_id : lock_id_of (codes "group") (message 7) ≡ ok (codes "group/3")
unfolding lock_id_of inventory_api.Base.format_int
lock_id = refl

-- A backend that counts the attempts and refuses the first two.
abbrev flaky : RelationsRepository
flaky = record {
  State = ℕ;
  create_tuples = λ ts upsert fencing s. (err unavailable, s);
  delete_tuples = λ filter fencing s. (err unavailable, s);
  check = λ rel c s. (err unavailable, s);
  acquire_lock = λ id s. (if ltb s 2 then err unavailable else ok (codes "fresh"), suc s);
}

-- The third attempt succeeds, and there is none after it.
third :
    assign flaky (limited 5) 0 (codes "group") (message 7 ∷ []) waiting 0
    ≡ (some none, (record waiting { lock_id = codes "group/3"; lock_token = codes "fresh" }, 3))
unfolding assign lock_id_of acquire inventory_api.Base.format_int
    inventory_api.Consumer.Replication.retry inventory_api.Consumer.Replication.attempts
third = refl

assign-FirstSuccess_example :
    ((f : FirstSuccess (acquire flaky (codes "group/3")) 5 0) × (assign flaky
          (limited 5)
          0
          (codes "group")
          (message 7 ∷ [])
          waiting
          0
        ≡ (
          some none,
          (record waiting { lock_id = codes "group/3"; lock_token = f.token }, f.state),
        )))
    ⊎ (FailsBefore (acquire flaky (codes "group/3")) 5 0
        × (assign flaky (limited 5) 0 (codes "group") (message 7 ∷ []) waiting 0 ≡ (
          some (some max_retries),
          (
            record waiting { lock_id = codes "group/3"; lock_token = [] },
            run_times (acquire flaky (codes "group/3")) 5 0,
          ),
        )))
assign-FirstSuccess_example =
    assign-FirstSuccess flaky 5 0 (codes "group") (codes "group/3") (message 7) [] waiting 0 lock_id

abbrev refusing : SimpleRelations
refusing = record new_simple_relations { acquire_lock_error = some unavailable }

assign-err_example :
    assign simple_repository (limited 3) 0 (codes "group") (message 7 ∷ []) waiting refusing ≡ (
      some (some max_retries),
      (record waiting { lock_id = codes "group/3"; lock_token = [] }, refusing),
    )
assign-err_example =
    assign-err 3 0 (codes "group") (codes "group/3") (message 7) [] waiting refusing unavailable
      lock_id refl
