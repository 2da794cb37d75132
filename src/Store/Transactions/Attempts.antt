-- ===== src/Store/Transactions/Attempts.antt =====
-- HandleSerializableTransaction is all or nothing.
use inventory_api.Base.{
  ℕ, zero, suc, ◌+◌, ◌<◌, ◌≡◌, refl, ap, ◌∙◌, ◌⊎◌, inl, inr, false, Option, none, some, arith,
  Result, ok, Bool-cases, Option-cases, Result-cases,
}
use inventory_api.Store.Repository.{Fault, Run}
use inventory_api.Store.Transactions.{
  Ending, committed, failed, exhausted, attempt, attempts_from, handle_serializable_transaction,
  is_serialization_failure,
}

module _ {S : Type 0} (begin : ℕ → S → S) (commit : ℕ → S → Result Fault S) (run : Run S) where
  -- The state before an attempt if none of the earlier ones wrote anything: what others committed.
  abbrev pub before : ℕ → S → S
  before zero s = s
  before (suc i) s = begin i (before i s)

  -- One attempt out of `limit` was committed as it saw the database, without anything of the other
  -- attempts; or nothing was written at all, on an error that calls for no retry or after all attempts.
  abbrev pub IsAtomic : ℕ → S → Ending × S → Type 0
  IsAtomic limit s (committed, s') =
      (i : ℕ) × (i < limit)
      × ((run (before (suc i) s)).0 ≡ none)
      × (commit i (run (before (suc i) s)).1 ≡ ok s')
  IsAtomic limit s (failed f, s') =
      (i : ℕ) × (i < limit) × (s' ≡ before (suc i) s) × (is_serialization_failure f ≡ false)
  IsAtomic limit s (exhausted last, s') = s' ≡ before limit s

  -- An attempt commits what the function wrote, or leaves the state that it began with.
  attempt_cases :
      (i : ℕ) (s : S)
      → (((attempt begin commit i run s).0 ≡ none)
          × ((run (begin i s)).0 ≡ none)
          × (commit i (run (begin i s)).1 ≡ ok (attempt begin commit i run s).1))
        ⊎ ((f : Fault) × ((attempt begin commit i run s).0 ≡ some f)
            × ((attempt begin commit i run s).1 ≡ begin i s))
  unfolding attempt
  attempt_cases i s = elim (Option-cases (run (begin i s)).0) [
    | inr (f, e) ↦ inr (f, rw (e, attempt) refl, rw (e, attempt) refl)
    | inl e ↦ elim (Result-cases (commit i (run (begin i s)).1)) [
      | inl (s', c) ↦ inl (rw (e, c, attempt) (refl, refl, refl))
      | inr (f, c) ↦ inr (f, rw (e, c, attempt) refl, rw (e, c, attempt) refl)
    ]
  ]

  attempts_from-IsAtomic :
      (n i limit : ℕ) (last : Option Fault) (first s : S)
      → s ≡ before i first
      → i + n ≡ limit
      → IsAtomic limit first (attempts_from begin commit n i last run s)
  unfolding attempts_from
  attempts_from-IsAtomic zero i limit last first s e l =
      e ∙ ap (λ (k : ℕ). before k first) (omega arith)
  attempts_from-IsAtomic (suc n) i limit last first s e l = elim (attempt_cases i s) [
    | inl (fine, ran, done) ↦ rw (fine, attempts_from) (i, omega arith, rw (← e) ran, rw (← e) done)
    | inr (f, failure, state) ↦ elim (Bool-cases (is_serialization_failure f)) [
      | inl again ↦
          rw (failure, again, attempts_from, state)
            (attempts_from-IsAtomic n (suc i) limit (some f) first (begin i s) (ap (begin i) e)
              (omega arith))
      | inr over ↦ rw (failure, over, attempts_from, state) (i, omega arith, ap (begin i) e, over)
    ]
  ]

  -- HandleSerializableTransaction commits what the function wrote in one attempt, as that attempt saw
  -- the database; or it writes nothing, and then it ended on an error that is no serialization failure,
  -- or all attempts were used up.
  pub handle_serializable_transaction-IsAtomic :
      (limit : ℕ) (s : S)
      → IsAtomic limit s (handle_serializable_transaction begin commit limit run s)
  unfolding handle_serializable_transaction
  handle_serializable_transaction-IsAtomic limit s =
      attempts_from-IsAtomic limit 0 limit none s s refl (omega arith)
