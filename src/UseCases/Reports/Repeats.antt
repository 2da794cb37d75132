-- ===== src/UseCases/Reports/Repeats.antt =====
-- ReportResource of internal/biz/usecase/resources/resource_service.go is idempotent: a report under
-- the transaction id of an earlier one is skipped.
use inventory_api.Base.{
  ◌≡◌, refl, ap, ◌∙◌, inl, inr, Bool, true, false, Option, none, some, arith, CaseTables, List,
  Result, ok, err, Text, Bool-cases, Option-cases, Result-cases, if◌then◌else◌, nonempty, contains,
  list_eq, nat_eq,
}
use inventory_api.Store.Repository.{Fault}
use inventory_api.Store.Fake.{fake_repository, fake_transaction, has_transaction_id_been_processed}
use inventory_api.Store.State.{FakeRepository}
use inventory_api.UseCases.Reports.{
  Environment, report_resource, report_body, admit, wait_for_consumer, retry_duplicate,
  report_and_wait, report_unless_processed, transaction_id_of,
}
use inventory_api.UseCases.Commands.{ReportResourceCommand}
use inventory_api.UseCases.Reports.Held.{wait-Ran}
use inventory_api.UseCases.Reports.Runs.{Call, all_called}
use inventory_api.UseCases.Reports.Remembers.{all_called-Remembers}
use inventory_api.UseCases.Reports.Marks.{report_body-processed}

if_true {ℓ} : {A : Type ℓ} {b : Bool} (x y : A) → b ≡ true → (if b then x else y) ≡ x
if_true x y h = rw h refl

if_false {ℓ} : {A : Type ℓ} {b : Bool} (x y : A) → b ≡ false → (if b then x else y) ≡ y
if_false x y h = rw h refl

own_id :
    (cmd : ReportResourceCommand) (id txid : Text)
    → cmd.transaction_id ≡ some id
    → nonempty id ≡ true
    → transaction_id_of cmd txid ≡ id
unfolding transaction_id_of
own_id cmd id txid own given = ground arith

-- The error of a call that admits nothing.
abbrev pub refusal : {A : Type 0} → Result Fault A → Option Fault
refusal (ok a) = none
refusal (err e) = some e

module _ ⦃t : CaseTables⦄ (env : Environment) (cmd : ReportResourceCommand) where
  wait-none :
      (caller : Text) (q : Option Fault × FakeRepository)
      → (wait_for_consumer fake_repository env cmd caller q).0 ≡ none
      → q.0 ≡ none
  unfolding wait_for_consumer
  wait-none caller (some f, s) h = cc
  wait-none caller (none, s) h = refl

  retry-none :
      (txid : Text) (q : Option Fault × FakeRepository)
      → env.config.idempotency_check_enabled ≡ true
      → (retry_duplicate fake_repository env cmd txid q).0 ≡ none
      → (q.0 ≡ none) × ((retry_duplicate fake_repository env cmd txid q).1 ≡ q.1)
  unfolding retry_duplicate
  retry-none txid (some f, s) on h = absurd (ground (arith, on, h))
  retry-none txid (none, s) on h = (refl, refl)

  transaction-none :
      (id txid : Text) (s : FakeRepository)
      → let q = fake_transaction false false (report_body fake_repository env cmd id txid) s in
        q.0 ≡ none
        → let b = report_body fake_repository env cmd id txid s in (b.0 ≡ none) × (q.1 ≡ b.1)
  unfolding fake_transaction
  transaction-none id txid s h =
      elim (Option-cases (report_body fake_repository env cmd id txid s).0) [
        | inl e ↦ (e, rw e refl)
        | inr (x, e) ↦ cc (rw e at h)
      ]

  module _ (caller id txid : Text) (s : FakeRepository) where
    and_wait-processed :
        env.config.idempotency_check_enabled ≡ true
        → nonempty id ≡ true
        → (report_and_wait fake_repository env cmd caller id txid s).0 ≡ none
        → contains id
            (report_and_wait fake_repository env cmd caller id txid s).1.processed_transaction_ids
          ≡ true
    unfolding report_and_wait
    and_wait-processed on given h =
        let q = fake_transaction false false (report_body fake_repository env cmd id txid) s in
        let again = retry_duplicate fake_repository env cmd txid q in
        let (once, same) = retry-none txid q on (wait-none caller again h) in
        let (fine, state) = transaction-none id txid s once in
        rw (wait-Ran env cmd caller s again, same, state)
          (report_body-processed env cmd id s txid given fine)

    skipped :
        env.config.idempotency_check_enabled ≡ true
        → contains id s.processed_transaction_ids ≡ true
        → report_unless_processed fake_repository env cmd caller id txid s ≡ (none, s)
    unfolding report_unless_processed has_transaction_id_been_processed
    skipped on old = if_true _ _ on ∙ if_true _ _ old

    not_skipped :
        env.config.idempotency_check_enabled ≡ true
        → contains id s.processed_transaction_ids ≡ false
        → report_unless_processed fake_repository env cmd caller id txid s
          ≡ report_and_wait fake_repository env cmd caller id txid s
    unfolding report_unless_processed has_transaction_id_been_processed
    not_skipped on new = if_true _ _ on ∙ if_false _ _ new

    unless_processed :
        env.config.idempotency_check_enabled ≡ true
        → nonempty id ≡ true
        → let q = report_unless_processed fake_repository env cmd caller id txid s in
          q.0 ≡ none → contains id q.1.processed_transaction_ids ≡ true
    unless_processed on given h = elim (Bool-cases (contains id s.processed_transaction_ids)) [
      | inl old ↦ rw (skipped on old) old
      | inr new ↦ let run = not_skipped on new in rw run (and_wait-processed on given (rw run at h))
    ]

  refused :
      (x : Fault) (s : FakeRepository)
      → admit env cmd ≡ err x
      → report_resource fake_repository env cmd s ≡ (some x, s)
  unfolding report_resource
  refused x s e = rw (e, report_resource) refl

  passed :
      (caller txid : Text) (s : FakeRepository)
      → admit env cmd ≡ ok (caller, txid)
      → report_resource fake_repository env cmd s
        ≡ report_unless_processed fake_repository env cmd caller (transaction_id_of cmd txid) txid s
  unfolding report_resource
  passed caller txid s e = rw (e, report_resource) refl

  passed_own :
      (caller id txid : Text) (s : FakeRepository)
      → cmd.transaction_id ≡ some id
      → nonempty id ≡ true
      → admit env cmd ≡ ok (caller, txid)
      → report_resource fake_repository env cmd s
        ≡ report_unless_processed fake_repository env cmd caller id txid s
  passed_own caller id txid s own given e =
      passed caller txid s e
      ∙ ap (λ i. report_unless_processed fake_repository env cmd caller i txid s)
          (own_id cmd id txid own given)

  -- A report without an error leaves its transaction id among the processed ones.
  report_resource-processed :
      (id : Text) (s : FakeRepository)
      → env.config.idempotency_check_enabled ≡ true
      → cmd.transaction_id ≡ some id
      → nonempty id ≡ true
      → (report_resource fake_repository env cmd s).0 ≡ none
      → contains id (report_resource fake_repository env cmd s).1.processed_transaction_ids ≡ true
  report_resource-processed id s on own given h = elim (Result-cases (admit env cmd)) [
    | inr (x, e) ↦ cc (rw (refused x s e) at h)
    | inl ((caller, txid), e) ↦
        let run = passed_own caller id txid s own given e in
        rw run (unless_processed caller id txid s on given (rw run at h))
  ]

  -- A report under a transaction id that was processed changes nothing, and gives no error but one
  -- that refuses it.
  processed-report_resource :
      (id : Text) (s : FakeRepository)
      → env.config.idempotency_check_enabled ≡ true
      → cmd.transaction_id ≡ some id
      → nonempty id ≡ true
      → contains id s.processed_transaction_ids ≡ true
      → report_resource fake_repository env cmd s ≡ (refusal (admit env cmd), s)
  processed-report_resource id s on own given old = elim (Result-cases (admit env cmd)) [
    | inr (x, e) ↦ refused x s e ∙ rw e refl
    | inl ((caller, txid), e) ↦
        passed_own caller id txid s own given e ∙ skipped caller id txid s on old ∙ rw e refl
  ]

-- A report under a transaction id of its own gave no error, with the check for repeated transactions
-- enabled. After whatever calls of ReportResource and Delete follow, a report under the same transaction
-- id changes nothing: at another time, of another caller, with other fresh ids and whatever other data,
-- as long as the check is enabled then. It gives no error, unless the caller or the data are refused
-- before the check.
pub report_resource-report_resource :
    ⦃t : CaseTables⦄ (env env' : Environment) (cmd cmd' : ReportResourceCommand) (id : Text)
    (between : List Call) (s : FakeRepository)
    → env.config.idempotency_check_enabled ≡ true
    → env'.config.idempotency_check_enabled ≡ true
    → cmd.transaction_id ≡ some id
    → cmd'.transaction_id ≡ some id
    → nonempty id ≡ true
    → (report_resource fake_repository env cmd s).0 ≡ none
    → let s' = all_called between (report_resource fake_repository env cmd s).1 in
      report_resource fake_repository env' cmd' s' ≡ (refusal (admit env' cmd'), s')
report_resource-report_resource env env' cmd cmd' id between s on on' own own' given h =
    let s1 = (report_resource fake_repository env cmd s).1 in
    processed-report_resource env' cmd' id (all_called between s1) on' own' given
      (all_called-Remembers id between s1 (report_resource-processed env cmd id s on own given h))
