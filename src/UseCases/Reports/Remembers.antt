-- ===== src/UseCases/Reports/Remembers.antt =====
-- No call of ReportResource or Delete of internal/biz/usecase/resources/resource_service.go makes the
-- repository in memory forget a transaction that was processed.
use inventory_api.Base.{
  ◌≡◌, inl, inr, true, false, Option, none, some, arith, CaseTables, Text, Bool-cases, Option-cases,
  Result-cases, List, [], ◌∷◌, contains, list_eq, nat_eq, ok, err,
}
use inventory_api.Model.Values.{Error, Fallible, Time}
use inventory_api.Model.ReporterResource.{ReporterResourceKey}
use inventory_api.Model.Resource.{Resource, new_resource}
use inventory_api.Model.Serialization.{Snapshots, serialize_resource}
use inventory_api.Store.Repository.{
  Fault, Run, domain, EventOperationType, created, updated, deleted,
}
use inventory_api.Store.Fake.{
  fake_repository, fake_transaction, save, save_snapshots, find_resource_by_keys,
}
use inventory_api.Store.State.{
  FakeRepository, mark_transaction_id_as_processed, reporter_transaction, common_transaction,
}
use inventory_api.UseCases.Reports.{
  Environment, report_resource, report_body, create_resource, save_unless_failed, delete,
  delete_body, admit_delete, key_of, report_of, is_record_not_found,
}
use inventory_api.UseCases.Commands.{ReportResourceCommand}
use inventory_api.UseCases.Reports.Held.{report_resource-Ran}
use inventory_api.UseCases.Reports.Marks.{contains-mark, processed-save}
use inventory_api.UseCases.Reports.Runs.{Call, report, delete_at, called, all_called}

abbrev pub Remembers : Text → FakeRepository → Type 0
Remembers id s = contains id s.processed_transaction_ids ≡ true

module _ (id : Text) where
  marks_kept :
      (a b : Text) (ids : List Text)
      → contains id ids ≡ true
      → contains id (mark_transaction_id_as_processed b (mark_transaction_id_as_processed a ids))
        ≡ true
  marks_kept a b ids h = ground (
    arith,
    contains-mark id b (mark_transaction_id_as_processed a ids),
    contains-mark id a ids,
    h,
  )

  module _ ⦃t : CaseTables⦄ where
    snapshots_failed :
        (n : Snapshots) (s : FakeRepository) (x : Fault)
        → (save_snapshots n s).0 ≡ some x
        → (save_snapshots n s).1 ≡ s
    unfolding save_snapshots
    snapshots_failed n s x h = ground arith

    snapshots-Remembers :
        (n : Snapshots) (s : FakeRepository) → Remembers id s → Remembers id (save_snapshots n s).1
    snapshots-Remembers n s h = elim (Option-cases (save_snapshots n s).0) [
      | inl e ↦ rw (processed-save n s e) (
          marks_kept (reporter_transaction n.reporter_representation)
            (common_transaction n.common_representation) s.processed_transaction_ids h)
      | inr (x, e) ↦ rw (snapshots_failed n s x e) h
    ]

    save-Remembers :
        (now : Time) (r : Resource) (operation : EventOperationType) (txid : Text)
        (s : FakeRepository)
        → Remembers id s
        → Remembers id (save now r operation txid s).1
    unfolding save
    save-Remembers now r operation txid s h = snapshots-Remembers (serialize_resource now r) s h

    module _ (env : Environment) (s : FakeRepository) (h : Remembers id s) where
      unless_failed-Remembers :
          (operation : EventOperationType) (txid : Text) (x : Resource × Option Error)
          → Remembers id (save_unless_failed fake_repository env operation txid x s).1
      unfolding save_unless_failed
      unless_failed-Remembers operation txid (r, some e) = h
      unless_failed-Remembers operation txid (r, none) =
          save-Remembers env.later r operation txid s h

      made-Remembers :
          (txid : Text) (m : Fallible Resource)
          → Remembers id
              (elim m as (λ _. Option Fault × FakeRepository) [
                | err e ↦ (some (domain e), s)
                | ok r ↦ save env.later r created txid s
              ]).1
      made-Remembers txid (err e) = h
      made-Remembers txid (ok r) = save-Remembers env.later r created txid s h

      create-Remembers :
          (cmd : ReportResourceCommand) (own txid : Text)
          → Remembers id (create_resource fake_repository env cmd own txid s).1
      unfolding create_resource
      create-Remembers cmd own txid = elim (Result-cases env.next_resource_id) [
        | inr (x, e) ↦ rw (e, create_resource) h
        | inl (a, e) ↦ elim (Result-cases env.next_reporter_resource_id) [
          | inr (x, f) ↦ rw (e, f, create_resource) h
          | inl (b, f) ↦
              rw (e, f, create_resource)
                (made-Remembers txid
                  (new_resource a b (key_of cmd) (report_of cmd own) env.now env.later))
        ]
      ]

      body-Remembers :
          (cmd : ReportResourceCommand) (own txid : Text)
          → Remembers id (report_body fake_repository env cmd own txid s).1
      unfolding report_body
      body-Remembers cmd own txid = elim (Result-cases (find_resource_by_keys (key_of cmd) s)) [
        | inl (r, e) ↦ rw (e, report_body) (unless_failed-Remembers updated txid _)
        | inr (x, e) ↦ elim (Bool-cases (is_record_not_found x)) [
          | inl missing ↦ rw (e, report_body, missing) (create-Remembers cmd own txid)
          | inr other ↦ rw (e, report_body, other) h
        ]
      ]

      delete_body-Remembers :
          (key : ReporterResourceKey) (txid : Text)
          → Remembers id (delete_body fake_repository env key txid s).1
      unfolding delete_body
      delete_body-Remembers key txid = elim (Result-cases (find_resource_by_keys key s)) [
        | inl (r, e) ↦ rw (e, delete_body) (unless_failed-Remembers deleted txid _)
        | inr (x, e) ↦ rw (e, delete_body) h
      ]

      transaction_state :
          (run : Run FakeRepository) → (fake_transaction false false run s).1 ≡ (run s).1
      unfolding fake_transaction
      transaction_state run = ground arith

      delete-Remembers :
          (key : ReporterResourceKey) → Remembers id (delete fake_repository env key s).1
      unfolding delete
      delete-Remembers key = elim (Result-cases (admit_delete env key)) [
        | inl (txid, e) ↦
            rw (e, delete)
              (rw (transaction_state (delete_body fake_repository env key txid))
                (delete_body-Remembers key txid))
        | inr (x, e) ↦ rw (e, delete) h
      ]

      report-Remembers :
          (cmd : ReportResourceCommand) → Remembers id (report_resource fake_repository env cmd s).1
      report-Remembers cmd = elim (report_resource-Ran env cmd s) [
        | inl same ↦ rw same h
        | inr (own, txid, fine, state) ↦ rw state (body-Remembers cmd own txid)
      ]

    -- Whatever calls follow, a transaction that was processed stays processed.
    pub all_called-Remembers :
        (cs : List Call) (s : FakeRepository) → Remembers id s → Remembers id (all_called cs s)
    unfolding all_called called
    all_called-Remembers [] s h = h
    all_called-Remembers (report env cmd ∷ cs) s h =
        all_called-Remembers cs _ (report-Remembers env s h cmd)
    all_called-Remembers (delete_at env key ∷ cs) s h =
        all_called-Remembers cs _ (delete-Remembers env s h key)
