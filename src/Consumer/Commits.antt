-- ===== src/Consumer/Commits.antt =====
-- Sequences of the steps of Consumer/Offsets: no offset is lost, and none is committed twice.
use inventory_api.Base.{
  ◌≡◌, sym, ap, ◌∙◌, true, false, Option, none, List, [], ◌∷◌, ◌++◌, arith, append_assoc,
  append-nil,
}
use inventory_api.Consumer.Replication.{Failure}
use inventory_api.Consumer.Offsets.{
  TopicPartition, Offsets, store_offset, commit_stored_offsets, shutdown, revoke,
}

pub data Step : Type 0 where
  process : TopicPartition → Step
  commit : Option Failure → List TopicPartition → Step
  stop : Option Failure → Option Failure → Step
  lose : Option Failure → Step

unfoldable pub step : Step → Offsets → Offsets
step (process p) s = store_offset p s
step (commit answer meanwhile) s = (commit_stored_offsets answer meanwhile s).1
step (stop commit_answer close_answer) s = (shutdown commit_answer close_answer s).1
step (lose answer) s = (revoke answer s).1

unfoldable pub run : List Step → Offsets → Offsets
unfolding step
run [] s = s
run (x ∷ xs) s = run xs (step x s)

-- The offsets of the messages that a step processes.
abbrev pub processed_in : Step → List TopicPartition
processed_in (process p) = p ∷ []
processed_in (commit answer meanwhile) = meanwhile
processed_in (stop commit_answer close_answer) = []
processed_in (lose answer) = []

unfoldable pub processed : List Step → List TopicPartition
processed [] = []
processed (x ∷ xs) = processed_in x ++ processed xs

-- All offsets that were processed: those committed, then those that wait.
abbrev pub offsets_of : Offsets → List TopicPartition
offsets_of s = s.committed ++ s.storage

offsets_of-commit :
    (answer : Option Failure) (meanwhile : List TopicPartition) (s : Offsets)
    → offsets_of (commit_stored_offsets answer meanwhile s).1 ≡ offsets_of s ++ meanwhile
unfolding commit_stored_offsets
offsets_of-commit answer meanwhile s = ground (
  arith,
  append_assoc s.committed s.storage meanwhile,
  append-nil s.committed,
  append-nil s.storage,
)

offsets_of-shutdown :
    (commit_answer close_answer : Option Failure) (s : Offsets)
    → offsets_of (shutdown commit_answer close_answer s).1 ≡ offsets_of s
unfolding shutdown
offsets_of-shutdown commit_answer close_answer s = ground (
  arith,
  offsets_of-commit commit_answer [] (record s { shutdown_in_progress = true }),
  append-nil (offsets_of s),
)

offsets_of-revoke :
    (answer : Option Failure) (s : Offsets) → offsets_of (revoke answer s).1 ≡ offsets_of s
unfolding revoke
offsets_of-revoke answer s =
    ground (arith, offsets_of-commit answer [] s, append-nil (offsets_of s))

offsets_of-step : (x : Step) (s : Offsets) → offsets_of (step x s) ≡ offsets_of s ++ processed_in x
unfolding step store_offset
offsets_of-step (process p) s = sym (append_assoc s.committed s.storage (p ∷ []))
offsets_of-step (commit answer meanwhile) s = offsets_of-commit answer meanwhile s
offsets_of-step (stop commit_answer close_answer) s =
    offsets_of-shutdown commit_answer close_answer s ∙ sym (append-nil (offsets_of s))
offsets_of-step (lose answer) s = offsets_of-revoke answer s ∙ sym (append-nil (offsets_of s))

-- Whatever Kafka answers, and in whatever order messages are processed, offsets are committed,
-- partitions are revoked and the consumer is shut down: the offsets that Kafka accepted, followed by
-- those that wait for a commit, are those from before followed by the processed ones, in order.
pub offsets_of-run :
    (xs : List Step) (s : Offsets) → offsets_of (run xs s) ≡ offsets_of s ++ processed xs
unfolding run processed
offsets_of-run [] s = sym (append-nil (offsets_of s))
offsets_of-run (x ∷ xs) s =
    offsets_of-run xs (step x s)
    ∙ ap (λ (os : List TopicPartition). os ++ processed xs) (offsets_of-step x s)
    ∙ append_assoc (offsets_of s) (processed_in x) (processed xs)

-- Shutdown of a consumer that is not closed, where Kafka accepts the commit and the close: everything
-- that was processed is committed and the consumer is closed, and partitions that are revoked
-- afterwards commit nothing a second time.
pub committed-shutdown :
    (s : Offsets) (answer : Option Failure)
    → s.is_closed ≡ false
    → let s' = (shutdown none none s).1 in
      (s'.storage ≡ [])
      × (s'.committed ≡ offsets_of s)
      × (s'.is_closed ≡ true)
      × ((revoke answer s').1.committed ≡ s'.committed)
unfolding shutdown revoke commit_stored_offsets
committed-shutdown s answer h = ground (arith, append-nil s.committed)
