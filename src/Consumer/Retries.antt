-- ===== src/Consumer/Retries.antt =====
-- Retry of internal/consumer/consumer.go: how often the operation is run, and what comes of it.
use inventory_api.Base.{
  ℕ, zero, suc, ◌<◌, ◌≡◌, refl, ap, ◌∙◌, ◌⊎◌, inl, inr, Result-cases, false, none, some, arith,
  Text, Result, ok, err, is_ok, on_result-err,
}
use inventory_api.Consumer.Replication.{
  Failure, max_retries, attempts, RetryLimit, unlimited, limited, retry,
}

module _ {ℓ} {S : Type ℓ} (operation : S → Result Failure Text × S) where
  -- The state after a number of runs of the operation.
  unfoldable pub run_times : ℕ → S → S
  run_times zero s = s
  run_times (suc n) s = run_times n (operation s).1

  -- The runs before a number of them all fail.
  abbrev pub FailsBefore : ℕ → S → Type 0
  FailsBefore n s = (j : ℕ) → j < n → is_ok (operation (run_times j s)).0 ≡ false

  FailsBefore-suc : (n : ℕ) (s : S) → FailsBefore (suc n) s → FailsBefore n (operation s).1
  unfolding run_times
  FailsBefore-suc n s h j below = h (suc j) (omega arith)

  attempts-suc :
      (n : ℕ) (s : S)
      → is_ok (operation s).0 ≡ false
      → attempts (suc n) operation s ≡ attempts n operation (operation s).1
  unfolding attempts
  attempts-suc n s h =
      on_result-err (operation s) (λ token s'. (some token, s')) (attempts n operation) h

  attempts_ok :
      (n k : ℕ) (token : Text) (s s' : S)
      → k < n
      → FailsBefore k s
      → operation (run_times k s) ≡ (ok token, s')
      → attempts n operation s ≡ (some token, s')
  unfolding attempts run_times
  attempts_ok zero k token s s' below fails e = ground arith
  attempts_ok (suc n) zero token s s' below fails e = rw e refl
  attempts_ok (suc n) (suc k) token s s' below fails e =
      attempts-suc n s (fails 0 (omega arith))
      ∙ attempts_ok n k token (operation s).1 s' (omega arith) (FailsBefore-suc k s fails) e

  attempts_err : (n : ℕ) (s : S) → FailsBefore n s → attempts n operation s ≡ (none, run_times n s)
  unfolding attempts run_times
  attempts_err zero s fails = refl
  attempts_err (suc n) s fails =
      attempts-suc n s (fails 0 (omega arith))
      ∙ attempts_err n (operation s).1 (FailsBefore-suc n s fails)

-- How many times the operation may be run.
abbrev pub rounds_of : RetryLimit → ℕ → ℕ
rounds_of (limited n) rounds = n
rounds_of unlimited rounds = rounds

-- The operation is run until it succeeds the first time, and its token and state are the result, if
-- that is within the limit. Without a limit every number of rounds that goes beyond this run will do.
pub retry-ok {ℓ} :
    {S : Type ℓ} (operation : S → Result Failure Text × S) (limit : RetryLimit) (rounds k : ℕ)
    (token : Text) (s s' : S)
    → k < rounds_of limit rounds
    → FailsBefore operation k s
    → operation (run_times operation k s) ≡ (ok token, s')
    → retry limit rounds operation s ≡ (some (ok token), s')
unfolding retry
retry-ok operation (limited n) rounds k token s s' below fails e =
    rw (attempts_ok operation n k token s s' below fails e) refl
retry-ok operation unlimited rounds k token s s' below fails e =
    rw (attempts_ok operation rounds k token s s' below fails e) refl

-- If all the runs that the limit allows fail, there is no further run, and the result is that the
-- retries are used up.
pub retry-err {ℓ} :
    {S : Type ℓ} (operation : S → Result Failure Text × S) (n rounds : ℕ) (s : S)
    → FailsBefore operation n s
    → retry (limited n) rounds operation s ≡ (some (err max_retries), run_times operation n s)
unfolding retry
retry-err operation n rounds s fails = rw (attempts_err operation n s fails) refl

module _ {ℓ} {S : Type ℓ} (operation : S → Result Failure Text × S) where
  FailsBefore-cons :
      (n : ℕ) (s : S)
      → is_ok (operation s).0 ≡ false
      → FailsBefore operation n (operation s).1
      → FailsBefore operation (suc n) s
  unfolding run_times
  FailsBefore-cons n s first rest zero below = first
  FailsBefore-cons n s first rest (suc j) below = rest j (omega (arith, below))

  -- The first run that succeeds, with those before it.
  pub record FirstSuccess (n : ℕ) (s : S) : Type ℓ where
    pub earlier : ℕ
    pub token : Text
    pub state : S
    pub within : earlier < n
    pub failing : FailsBefore operation earlier s
    pub success : operation (run_times operation earlier s) ≡ (ok token, state)

  FirstSuccess-suc :
      (n : ℕ) (s : S)
      → is_ok (operation s).0 ≡ false
      → FirstSuccess n (operation s).1
      → FirstSuccess (suc n) s
  unfolding run_times
  FirstSuccess-suc n s first f = record {
    earlier = suc f.earlier;
    token = f.token;
    state = f.state;
    within = omega (arith, f.within);
    failing = FailsBefore-cons f.earlier s first f.failing;
    success = f.success;
  }

  at_once : (n : ℕ) (s : S) (token : Text) → (operation s).0 ≡ ok token → FirstSuccess (suc n) s
  unfolding run_times
  at_once n s token e = record {
    earlier = 0;
    token = token;
    state = (operation s).1;
    within = omega arith;
    failing = λ j below. absurd (omega (arith, below));
    success = ap (λ x. (x, (operation s).1)) e;
  }

  -- Among a number of runs there is a first that succeeds, or all of them fail.
  pub FirstSuccess-cases : (n : ℕ) (s : S) → FirstSuccess n s ⊎ FailsBefore operation n s
  FirstSuccess-cases zero s = inr (λ j below. absurd (omega (arith, below)))
  FirstSuccess-cases (suc n) s = elim (Result-cases (operation s).0) [
    | inl (token, e) ↦ inl (at_once n s token e)
    | inr (x, e) ↦
        let first : is_ok (operation s).0 ≡ false = rw e refl in
        elim (FirstSuccess-cases n (operation s).1) [
          | inl f ↦ inl (FirstSuccess-suc n s first f)
          | inr fails ↦ inr (FailsBefore-cons n s first fails)
        ]
  ]
