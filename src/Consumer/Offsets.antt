-- ===== src/Consumer/Offsets.antt =====
-- internal/consumer/consumer.go: the offsets of processed messages, from the store to the commit, with
-- Shutdown and the RebalanceCallback of revoked partitions. Kafka answers a commit or a close with an
-- error or none; the answer is an argument. What Kafka accepted is kept in `committed`.
use inventory_api.Base.{
  ℕ, zero, suc, ◌%◌, Bool, true, Option, none, some, List, [], ◌∷◌, ◌++◌, nonempty, Text, nat_eq,
  ◌==◌, if◌then◌else◌,
}
use inventory_api.Consumer.Replication.{Failure, closed}

pub record TopicPartition : Type 0 where
  pub topic : Text
  pub partition : ℕ
  pub offset : ℕ

pub record Offsets : Type 0 where
  pub storage : List TopicPartition
  pub committed : List TopicPartition
  pub shutdown_in_progress : Bool
  pub is_closed : Bool
  pub lock_id : Text
  pub lock_token : Text

-- checkIfCommit, for a modulus that is not 0; `none` is the panic of a division by 0.
unfoldable pub check_if_commit : TopicPartition → ℕ → Option Bool
check_if_commit p zero = none
check_if_commit p (suc m) = some (p.offset % suc m == 0)

-- The step of Consume that stores the offset of a processed message.
unfoldable pub store_offset : TopicPartition → Offsets → Offsets
store_offset p s = record s { storage = s.storage ++ p ∷ [] }

-- commitStoredOffsets. The lock is free while Kafka commits, so `meanwhile` may be stored.
unfoldable pub commit_stored_offsets :
    Option Failure → List TopicPartition → Offsets → Option Failure × Offsets
commit_stored_offsets answer meanwhile s =
    if nonempty s.storage
    then elim answer [
      | some e ↦ (
        some e,
        record s { storage = if nonempty meanwhile then s.storage ++ meanwhile else s.storage },
      )
      | none ↦ (none, record s { storage = meanwhile; committed = s.committed ++ s.storage })
    ]
    else (none, record s { storage = meanwhile })

-- Shutdown: an error of the commit is logged, and one of the close is returned. A commit of no offsets
-- is none. No message is processed meanwhile.
unfoldable pub shutdown : Option Failure → Option Failure → Offsets → Failure × Offsets
unfolding commit_stored_offsets
shutdown commit_answer close_answer s =
    let s' =
      (commit_stored_offsets commit_answer [] (record s { shutdown_in_progress = true })).1 in
    if s.is_closed
    then (closed, s)
    else elim close_answer [ some e ↦ (e, s') | none ↦ (closed, record s' { is_closed = true }) ]

abbrev pub without_lock : Offsets → Offsets
without_lock s = record s { lock_id = []; lock_token = [] }

-- RebalanceCallback for revoked partitions, which Kafka calls where no message is being processed.
unfoldable pub revoke : Option Failure → Offsets → Option Failure × Offsets
unfolding commit_stored_offsets
revoke answer s =
    let (e, s') = commit_stored_offsets answer [] s in
    if s.shutdown_in_progress
    then (none, without_lock s)
    else if nonempty s.storage
    then (e, without_lock s')
    else (none, without_lock s)
