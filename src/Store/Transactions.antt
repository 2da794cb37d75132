-- ===== src/Store/Transactions.antt =====
-- internal/data/gorm_transaction_manager.go: a function in a serializable transaction, with retries. The
-- database stands outside of the code: `begin` is the state that an attempt sees, with what others
-- committed before, a rollback leaves that state, and `commit` is what becomes of the writes.
pub mod Attempts
use inventory_api.Base.{
  ℕ, zero, suc, ◌+◌, Bool, true, false, Option, none, some, Text, codes, list_eq, nat_eq, ◌==◌,
  if◌then◌else◌, Result, ok, err,
}
use inventory_api.Store.Repository.{Fault, postgres, sqlite, Run}

-- The code of sqlite3.ErrError.
abbrev sqlite_error : ℕ
sqlite_error = 1

-- isSerializationFailure
unfoldable pub is_serialization_failure : Fault → Bool
is_serialization_failure (postgres code) = code == codes "40001"
is_serialization_failure (sqlite code) = code == sqlite_error
is_serialization_failure _ = false

-- How HandleSerializableTransaction ends: `exhausted` wraps the error of the last attempt, nil if
-- there was none.
pub data Ending : Type 0 where
  committed : Ending
  failed : Fault → Ending
  exhausted : Option Fault → Ending

module _ {S : Type 0} (begin : ℕ → S → S) (commit : ℕ → S → Result Fault S) where
  -- An attempt: the function, and the commit of what it wrote. What is left on an error is the state
  -- that the transaction began with.
  unfoldable pub attempt : ℕ → Run S → S → Option Fault × S
  attempt i run s = elim ((run (begin i s)).0) [
    | some e ↦ (some e, begin i s)
    | none ↦ elim (commit i (run (begin i s)).1) [
      | err e ↦ (some e, begin i s)
      | ok s' ↦ (none, s')
    ]
  ]

  -- The loop, with the rounds that are left, the number of the attempt and the last error.
  unfoldable pub attempts_from : ℕ → ℕ → Option Fault → Run S → S → Ending × S
  unfolding attempt is_serialization_failure
  attempts_from zero i last run s = (exhausted last, s)
  attempts_from (suc n) i last run s =
      let (e, s') = attempt i run s in
      elim e [
        | none ↦ (committed, s')
        | some f ↦
            let again = attempts_from n (suc i) (some f) run s' in
            if is_serialization_failure f then again else (failed f, s')
      ]

  unfoldable pub handle_serializable_transaction : ℕ → Run S → S → Ending × S
  unfolding attempts_from
  handle_serializable_transaction max_retries run s = attempts_from max_retries 0 none run s
