-- ===== src/UseCases/Reports/Marks.antt =====
-- A report that the repository in memory saved marks its transaction as processed.
use inventory_api.Base.{
  ◌≡◌, refl, ap, ◌∙◌, ◌⊎◌, inl, inr, true, ◌&&◌, ◌||◌, ◌==◌, none, arith, CaseTables, ok, Text,
  Bool-cases, Result-cases, List, [], ◌∷◌, nonempty, contains, list_eq, nat_eq, ==_refl,
}
use inventory_api.Model.Values.{Time, Uuid}
use inventory_api.Model.Events.{ResourceReportEvent, set_timestamps}
use inventory_api.Model.Resource.{
  Resource, Report, update_resource, new_resource, report_on, write_through, advance_common_version,
  created_at, fill_reporter_data,
}
use inventory_api.Model.Resource.Reports.{CarriesTransaction, report_event_of-CarriesTransaction}
use inventory_api.Model.Resource.Lifecycle.{update_resource-IsUpdated}
use inventory_api.Model.Resource.Creation.{new_resource-ok}
use inventory_api.Model.Serialization.{
  serialize_resource, serialize_reporter_representation, serialize_common_representation, Snapshots,
}
use inventory_api.Store.Repository.{EventOperationType, created, updated}
use inventory_api.Store.Fake.{
  fake_repository, save, save_snapshots, store, find_resource_by_keys, resource_of,
}
use inventory_api.Store.State.{
  FakeRepository, mark_transaction_id_as_processed, reporter_transaction, common_transaction,
}
use inventory_api.UseCases.Reports.{
  Environment, report_body, key_of, report_of, create_resource, is_record_not_found,
}
use inventory_api.UseCases.Commands.{ReportResourceCommand}
use inventory_api.UseCases.Reports.Calls.{save_unless_failed-none}

transaction-fill : (p : Report) → (fill_reporter_data p).transaction_id ≡ p.transaction_id
transaction-fill p = ground arith

pub contains-mark :
    (id id' : Text) (ids : List Text)
    → contains id (mark_transaction_id_as_processed id' ids)
      ≡ ((nonempty id' && id' == id) || contains id ids)
unfolding mark_transaction_id_as_processed contains
contains-mark id id' ids = ground arith

marked :
    (id a b : Text) (ids : List Text)
    → (a ≡ id) ⊎ (b ≡ id)
    → nonempty id ≡ true
    → contains id (mark_transaction_id_as_processed b (mark_transaction_id_as_processed a ids))
      ≡ true
marked id a b ids (inl e) given =
    rw (contains-mark id b (mark_transaction_id_as_processed a ids), contains-mark id a ids)
      (rw e (ground (arith, ==_refl id)))
marked id a b ids (inr e) given =
    rw (contains-mark id b (mark_transaction_id_as_processed a ids))
      (rw e (ground (arith, ==_refl id)))

-- The transactions of the snapshots of a resource with one report event that carries one.
transaction_serialized :
    (now : Time) (r : Resource) (e : ResourceReportEvent) (id : Text)
    → r.resource_report_events ≡ e ∷ []
    → r.resource_delete_events ≡ []
    → CarriesTransaction id e
    → let n = serialize_resource now r in
      (reporter_transaction n.reporter_representation ≡ id)
      ⊎ (common_transaction n.common_representation ≡ id)
unfolding serialize_resource serialize_reporter_representation serialize_common_representation
transaction_serialized now r e id events no_deletes (inl (c, there, same)) =
    inl (rw (events, no_deletes) (rw there same))
transaction_serialized now r e id events no_deletes (inr (d, there, same)) =
    inr (rw events (rw there same))

module _ ⦃t : CaseTables⦄ where
  pub processed-save :
      (n : Snapshots) (s : FakeRepository)
      → (save_snapshots n s).0 ≡ none
      → (save_snapshots n s).1.processed_transaction_ids
        ≡ mark_transaction_id_as_processed (common_transaction n.common_representation) (
            mark_transaction_id_as_processed
              (reporter_transaction n.reporter_representation)
              s.processed_transaction_ids)
  unfolding save_snapshots store
  processed-save n s h = ground arith

  -- A resource whose one event carries a transaction is saved with a mark of the transaction.
  save-processed :
      (now : Time) (r : Resource) (e : ResourceReportEvent) (operation : EventOperationType)
      (txid id : Text) (s : FakeRepository)
      → r.resource_report_events ≡ e ∷ []
      → r.resource_delete_events ≡ []
      → CarriesTransaction id e
      → nonempty id ≡ true
      → (save now r operation txid s).0 ≡ none
      → contains id (save now r operation txid s).1.processed_transaction_ids ≡ true
  unfolding save
  save-processed now r e operation txid id s events no_deletes carries given h =
      let n = serialize_resource now r in
      rw (processed-save n s h) (
        marked id (reporter_transaction n.reporter_representation)
          (common_transaction n.common_representation) s.processed_transaction_ids
          (transaction_serialized now r e id events no_deletes carries) given)

  module _ (env : Environment) (cmd : ReportResourceCommand) (id : Text) (s : FakeRepository) where
    no_deletes-find :
        (r : Resource) → find_resource_by_keys (key_of cmd) s ≡ ok r → r.resource_delete_events ≡ []
    unfolding find_resource_by_keys resource_of
    no_deletes-find r h = ground arith

    no_deletes-update :
        (r : Resource)
        → let x = update_resource (key_of cmd) (report_of cmd id) env.now env.later r in
          x.0.resource_delete_events ≡ r.resource_delete_events
    unfolding update_resource report_on write_through advance_common_version
    no_deletes-update r = ground arith

    no_deletes-new_resource :
        (a b : Uuid) (r : Resource)
        → new_resource a b (key_of cmd) (report_of cmd id) env.now env.later ≡ ok r
        → r.resource_delete_events ≡ []
    unfolding new_resource
    no_deletes-new_resource a b r h = ground arith

    carries-update :
        (r : Resource)
        → let x = update_resource (key_of cmd) (report_of cmd id) env.now env.later r in
          x.1 ≡ none
          → (e : ResourceReportEvent) × (x.0.resource_report_events ≡ e ∷ [])
            × CarriesTransaction id e
    unfolding set_timestamps
    carries-update r h =
        let u = update_resource-IsUpdated (key_of cmd) r (report_of cmd id) env.now env.later h in
        let c =
          report_event_of-CarriesTransaction _ (key_of cmd) _ (report_of cmd id) u.event u.made in
        (
          set_timestamps (created_at r) env.later u.event,
          ap (λ (q : Resource). q.resource_report_events) u.result,
          c,
        )

    carries-new_resource :
        (a b : Uuid) (r : Resource)
        → new_resource a b (key_of cmd) (report_of cmd id) env.now env.later ≡ ok r
        → (e : ResourceReportEvent) × (r.resource_report_events ≡ e ∷ []) × CarriesTransaction id e
    unfolding set_timestamps
    carries-new_resource a b r h =
        let (e, made, common, last, rrs, events) =
          new_resource-ok a b (key_of cmd) (report_of cmd id) env.now env.later r h in
        (
          set_timestamps env.later env.later e,
          events,
          rw (transaction-fill (report_of cmd id)) at (
              report_event_of-CarriesTransaction _ (key_of cmd) _
                (fill_reporter_data (report_of cmd id)) e made),
        )

    -- What createResource without an error made and saved.
    create_resource-none :
        (txid : Text)
        → (create_resource fake_repository env cmd id txid s).0 ≡ none
        → (a b : Uuid) × (r : Resource) × (new_resource a b
              (key_of cmd)
              (report_of cmd id)
              env.now
              env.later
            ≡ ok r)
          × ((save env.later r created txid s).0 ≡ none)
          × ((create_resource fake_repository env cmd id txid s).1
              ≡ (save env.later r created txid s).1)
    unfolding create_resource
    create_resource-none txid h = elim (Result-cases env.next_resource_id) [
      | inr (x, e) ↦ cc (rw (e, create_resource) at h)
      | inl (a, e) ↦ elim (Result-cases env.next_reporter_resource_id) [
        | inr (x, f) ↦ cc (rw (e, f, create_resource) at h)
        | inl (b, f) ↦
            elim (Result-cases
              (new_resource a b (key_of cmd) (report_of cmd id) env.now env.later)) [
                | inr (x, g) ↦ cc (rw (e, f, g, create_resource) at h)
                | inl (r, g) ↦ (
                  a,
                  b,
                  r,
                  g,
                  rw (e, f, g, create_resource) at h,
                  rw (e, f, g, create_resource) refl,
                )
              ]
      ]
    ]

    -- A run without an error of the function of ReportResource marks its transaction.
    pub report_body-processed :
        (txid : Text)
        → nonempty id ≡ true
        → (report_body fake_repository env cmd id txid s).0 ≡ none
        → contains id (report_body fake_repository env cmd id txid s).1.processed_transaction_ids
          ≡ true
    unfolding report_body
    report_body-processed txid given k =
        elim (Result-cases (find_resource_by_keys (key_of cmd) s)) [
          | inl (r, found) ↦
              let x = update_resource (key_of cmd) (report_of cmd id) env.now env.later r in
              let (fine, stored, state) =
                save_unless_failed-none env updated txid x s (rw (found, report_body) at k) in
              let (e, events, carries) = carries-update r fine in
              rw (found, report_body, state)
                (save-processed env.later x.0 e updated txid id s events
                  (no_deletes-update r ∙ no_deletes-find r found) carries given stored)
          | inr (x, missing) ↦ elim (Bool-cases (is_record_not_found x)) [
            | inr other ↦ cc (rw (missing, report_body, other) at k)
            | inl none_there ↦
                let (a, b, r, made, stored, state) =
                  create_resource-none txid (rw (missing, report_body, none_there) at k) in
                let (e, events, carries) = carries-new_resource a b r made in
                rw (missing, report_body, none_there, state)
                  (save-processed env.later r e created txid id s events
                    (no_deletes-new_resource a b r made) carries given stored)
          ]
        ]
