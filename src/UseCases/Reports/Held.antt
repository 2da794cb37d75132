-- ===== src/UseCases/Reports/Held.antt =====
-- What ReportResource and Delete do to the repository in memory.
use inventory_api.Base.{
  ◌≡◌, refl, ◌⊎◌, inl, inr, Bool, true, false, not, ◌&&◌, Option, none, some, arith, CaseTables,
  Text, is_some, Bool-cases, contains, list_eq, nat_eq, Option-cases, Result-cases, if◌then◌else◌,
}
use inventory_api.Model.Values.{Error}
use inventory_api.Model.Resource.{Resource}
use inventory_api.Store.Repository.{Fault, EventOperationType, updated}
use inventory_api.Store.Fake.{
  fake_repository, save, save_snapshots, fake_transaction, find_resource_by_keys,
  has_transaction_id_been_processed,
}
use inventory_api.Store.State.{FakeRepository}
use inventory_api.UseCases.Reports.{
  Environment, admit, report_resource, report_body, report_and_wait, report_unless_processed,
  retry_duplicate, wait_for_consumer, is_duplicate_transaction_error, transaction_id_of,
  create_resource, save_unless_failed, key_of, is_record_not_found,
}
use inventory_api.UseCases.Commands.{ReportResourceCommand}

module _ ⦃t : CaseTables⦄ (env : Environment) where
  -- Save writes nothing where it fails.
  pub save_failed :
      (operation : EventOperationType) (txid : Text) (x : Resource × Option Error)
      (s : FakeRepository)
      → let q = save_unless_failed fake_repository env operation txid x s in
        is_some q.0 ≡ true → q.1 ≡ s
  unfolding save_unless_failed save save_snapshots
  save_failed operation txid (r, some e) s h = refl
  save_failed operation txid (r, none) s h = ground arith

  create_failed :
      (cmd : ReportResourceCommand) (id txid : Text) (s : FakeRepository)
      → let q = create_resource fake_repository env cmd id txid s in is_some q.0 ≡ true → q.1 ≡ s
  unfolding create_resource save save_snapshots
  create_failed cmd id txid s h = ground arith

  report_failed :
      (cmd : ReportResourceCommand) (id txid : Text) (s : FakeRepository)
      → let q = report_body fake_repository env cmd id txid s in is_some q.0 ≡ true → q.1 ≡ s
  unfolding report_body
  report_failed cmd id txid s h = elim (Result-cases (find_resource_by_keys (key_of cmd) s)) [
    | inl (r, e) ↦ rw (e, report_body) (save_failed updated txid _ s (rw (e, report_body) at h))
    | inr (x, e) ↦ elim (Bool-cases (is_record_not_found x)) [
      | inl missing ↦
          rw (e, report_body, missing)
            (create_failed cmd id txid s (rw (e, report_body, missing) at h))
      | inr other ↦ rw (e, report_body, other) refl
    ]
  ]

  -- A run of ReportResource left the repository as it was, or as one run of its function without an
  -- error leaves it.
  abbrev pub Ran : ReportResourceCommand → FakeRepository → FakeRepository → Type 0
  Ran cmd s s' =
      (s' ≡ s)
      ⊎ ((id txid : Text) × ((report_body fake_repository env cmd id txid s).0 ≡ none)
          × (s' ≡ (report_body fake_repository env cmd id txid s).1))

  transaction-Ran :
      (cmd : ReportResourceCommand) (id txid : Text) (s : FakeRepository)
      → Ran cmd s (fake_transaction false false (report_body fake_repository env cmd id txid) s).1
  unfolding fake_transaction
  transaction-Ran cmd id txid s =
      elim (Option-cases (report_body fake_repository env cmd id txid s).0) [
        | inl e ↦ inr (id, txid, e, rw e refl)
        | inr (x, e) ↦ inl (rw e (report_failed cmd id txid s (rw e refl)))
      ]

  transaction_failed :
      (cmd : ReportResourceCommand) (id txid : Text) (s : FakeRepository)
      → let q = fake_transaction false false (report_body fake_repository env cmd id txid) s in
        is_some q.0 ≡ true → q.1 ≡ s
  unfolding fake_transaction
  transaction_failed cmd id txid s h =
      elim (Option-cases (report_body fake_repository env cmd id txid s).0) [
        | inl e ↦ cc (rw e at h)
        | inr (y, e) ↦ rw e (report_failed cmd id txid s (rw e refl))
      ]

  retry-Ran :
      (cmd : ReportResourceCommand) (txid : Text) (s : FakeRepository)
      (q : Option Fault × FakeRepository)
      → Ran cmd s q.1
      → (is_some q.0 ≡ true → q.1 ≡ s)
      → Ran cmd s (retry_duplicate fake_repository env cmd txid q).1
  unfolding retry_duplicate
  retry-Ran cmd txid s (none, s') h k = h
  retry-Ran cmd txid s (some f, s') h k =
      elim (Bool-cases
        (not env.config.idempotency_check_enabled && is_duplicate_transaction_error f)) [
          | inl again ↦ elim (Result-cases env.retry_transaction_id) [
            | inl (id, e) ↦ rw (again, e) (rw (k refl) (transaction-Ran cmd id txid s))
            | inr (x, e) ↦ rw (again, e) h
          ]
          | inr over ↦ rw over h
        ]

  pub wait-Ran :
      (cmd : ReportResourceCommand) (caller : Text) (s : FakeRepository)
      (q : Option Fault × FakeRepository)
      → (wait_for_consumer fake_repository env cmd caller q).1 ≡ q.1
  unfolding wait_for_consumer
  wait-Ran cmd caller s (some f, s') = refl
  wait-Ran cmd caller s (none, s') = ground arith

  if-Ran :
      (cmd : ReportResourceCommand) (s : FakeRepository) (b : Bool)
      (x y : Option Fault × FakeRepository)
      → Ran cmd s x.1
      → Ran cmd s y.1
      → Ran cmd s (if b then x else y).1
  if-Ran cmd s true x y h k = h
  if-Ran cmd s false x y h k = k

  and_wait-Ran :
      (cmd : ReportResourceCommand) (caller id txid : Text) (s : FakeRepository)
      → Ran cmd s (report_and_wait fake_repository env cmd caller id txid s).1
  unfolding report_and_wait
  and_wait-Ran cmd caller id txid s =
      let q = fake_transaction false false (report_body fake_repository env cmd id txid) s in
      rw (wait-Ran cmd caller s (retry_duplicate fake_repository env cmd txid q))
        (retry-Ran cmd txid s q (transaction-Ran cmd id txid s) (transaction_failed cmd id txid s))

  unless_processed-Ran :
      (cmd : ReportResourceCommand) (caller id txid : Text) (s : FakeRepository)
      → Ran cmd s (report_unless_processed fake_repository env cmd caller id txid s).1
  unfolding report_unless_processed has_transaction_id_been_processed
  unless_processed-Ran cmd caller id txid s =
      let run = and_wait-Ran cmd caller id txid s in
      if-Ran cmd s env.config.idempotency_check_enabled _ _
        (if-Ran cmd s (contains id s.processed_transaction_ids) _ _ (inl refl) run) run

  -- ReportResource runs its function once without an error, or leaves the repository as it was.
  pub report_resource-Ran :
      (cmd : ReportResourceCommand) (s : FakeRepository)
      → Ran cmd s (report_resource fake_repository env cmd s).1
  unfolding report_resource
  report_resource-Ran cmd s = elim (Result-cases (admit env cmd)) [
    | inr (x, e) ↦ inl (rw (e, report_resource) refl)
    | inl ((caller, txid), e) ↦
        rw (e, report_resource)
          (unless_processed-Ran cmd caller (transaction_id_of cmd txid) txid s)
  ]
