-- ===== src/UseCases/Reports/Calls.antt =====
-- What one call of ReportResource or Delete does to a resource that the repository in memory holds.
use inventory_api.Base.{
  ◌≡◌, refl, ap, ◌⊎◌, inl, inr, true, Option, none, some, CaseTables, Text, is_some, Option-cases,
  Result-cases,
}
use inventory_api.Model.Values.{Error}
use inventory_api.Model.ReporterResource.{
  ReporterResource, ReporterResourceKey, update_reporter_resource,
}
use inventory_api.Model.Resource.{Resource, update_resource, delete_resource, is_given}
use inventory_api.Model.Resource.Versions.{HasVersionRoom, Advances, update_resource-Advances}
use inventory_api.Model.Resource.Tombstones.{Reported, update_reporter_resource-Reported}
use inventory_api.Store.Repository.{EventOperationType, updated, deleted}
use inventory_api.Store.Fake.{fake_repository, save, fake_transaction}
use inventory_api.Store.State.{FakeRepository}
use inventory_api.Store.Fake.Saves.{reloaded, unlinked}
use inventory_api.Store.Fake.Updates.{Holds, update-Holds, id-update_resource}
use inventory_api.Store.Fake.Deletes.{after_delete, delete-Holds, untouched-delete_resource}
use inventory_api.UseCases.Reports.{
  Environment, report_resource, report_body, save_unless_failed, delete_body, delete, admit_delete,
  key_of, report_of,
}
use inventory_api.UseCases.Commands.{ReportResourceCommand}
use inventory_api.UseCases.Reports.Held.{save_failed, report_resource-Ran}

module _ ⦃t : CaseTables⦄ (env : Environment) where
  -- What was saved without an error was changed without one.
  pub save_unless_failed-none :
      (operation : EventOperationType) (txid : Text) (x : Resource × Option Error)
      (s : FakeRepository)
      → (save_unless_failed fake_repository env operation txid x s).0 ≡ none
      → (x.1 ≡ none)
        × ((save env.later x.0 operation txid s).0 ≡ none)
        × ((save_unless_failed fake_repository env operation txid x s).1
            ≡ (save env.later x.0 operation txid s).1)
  unfolding save_unless_failed
  save_unless_failed-none operation txid (r, some e) s h = cc
  save_unless_failed-none operation txid (r, none) s h = (refl, h, refl)

  -- A report as the aggregate at the key takes it: one more report on the reporter resource, and the
  -- next common version exactly for common data.
  pub record IsReported (cmd : ReportResourceCommand) (r : Resource) (old : ReporterResource)
      (s' : FakeRepository) : Type 0 where
    pub resource : Resource
    pub new : ReporterResource
    pub held : Holds (key_of cmd) resource new s'
    pub same_id : resource.id ≡ r.id
    pub reported : Reported old new
    pub versions :
        Advances
          (is_given cmd.common_representation)
          r.last_common_version
          resource.common_version
          resource.last_common_version

  Reported-unlinked : (old new : ReporterResource) → Reported old new → Reported old (unlinked new)
  Reported-unlinked old new q = record {
    alive = q.alive;
    same_key = q.same_key;
    same_id = q.same_id;
    restarts = q.restarts;
    continues = q.continues;
    moves_on = q.moves_on;
  }

  module _ (cmd : ReportResourceCommand) (r : Resource) (rr : ReporterResource)
      (s : FakeRepository) where
    pub report_body-IsReported :
        (id txid : Text)
        → Holds (key_of cmd) r rr s
        → HasVersionRoom r.last_common_version
        → (report_body fake_repository env cmd id txid s).0 ≡ none
        → IsReported cmd r rr (report_body fake_repository env cmd id txid s).1
    unfolding report_body
    report_body-IsReported id txid h room k =
        let key = key_of cmd in
        let p = report_of cmd id in
        let x = update_resource key p env.now env.later r in
        let new = update_reporter_resource p.api_href p.console_href env.now rr in
        let (fine, stored, state) =
          save_unless_failed-none updated txid x s (rw (h.found, report_body) at k) in
        rw (h.found, report_body, state)
          (record {
            resource = reloaded x.0 new;
            new = unlinked new;
            held =
                update-Holds key p env.now env.later r rr s h env.later updated txid room fine
                  stored;
            same_id = id-update_resource key p env.now env.later r rr s;
            reported =
                Reported-unlinked rr new
                  (update_reporter_resource-Reported p.api_href p.console_href env.now rr);
            versions = update_resource-Advances key p env.now env.later r h.in_step room;
          })

    -- A call of ReportResource at the key of a resource that the repository holds, whose last common
    -- version is not the highest uint, either changes nothing, or is one report on that resource.
    pub report_resource-IsReported :
        Holds (key_of cmd) r rr s
        → HasVersionRoom r.last_common_version
        → let s' = (report_resource fake_repository env cmd s).1 in
          (s' ≡ s) ⊎ IsReported cmd r rr s'
    report_resource-IsReported h room = elim (report_resource-Ran env cmd s) [
      | inl same ↦ inl same
      | inr (id, txid, k, e) ↦ inr (rw e (report_body-IsReported id txid h room k))
    ]

  -- A delete as the aggregate at the key takes it: a tombstone, with the versions left as they are.
  pub record IsDeleted (key : ReporterResourceKey) (r : Resource) (old : ReporterResource)
      (s' : FakeRepository) : Type 0 where
    pub resource : Resource
    pub held : Holds key resource (unlinked (after_delete env.now old)) s'
    pub same_id : resource.id ≡ r.id
    pub same_version : resource.common_version ≡ r.common_version
    pub same_last_version : resource.last_common_version ≡ r.last_common_version

  module _ (key : ReporterResourceKey) (r : Resource) (rr : ReporterResource)
      (s : FakeRepository) where
    delete_body-IsDeleted :
        (txid : Text)
        → Holds key r rr s
        → (delete_body fake_repository env key txid s).0 ≡ none
        → IsDeleted key r rr (delete_body fake_repository env key txid s).1
    unfolding delete_body
    delete_body-IsDeleted txid h k =
        let x = delete_resource key env.now r in
        let (fine, stored, state) =
          save_unless_failed-none deleted txid x s (rw (h.found, delete_body) at k) in
        let u = untouched-delete_resource key env.now r rr s in
        rw (h.found, delete_body, state)
          (record {
            resource = reloaded x.0 (after_delete env.now rr);
            held = delete-Holds key env.now r rr s h env.later deleted txid fine stored;
            same_id = ap (λ (q : Resource). q.id) u;
            same_version = ap (λ (q : Resource). q.common_version) u;
            same_last_version = ap (λ (q : Resource). q.last_common_version) u;
          })

    delete_failed :
        (txid : Text)
        → Holds key r rr s
        → is_some (delete_body fake_repository env key txid s).0 ≡ true
        → (delete_body fake_repository env key txid s).1 ≡ s
    unfolding delete_body
    delete_failed txid h k =
        rw (h.found, delete_body)
          (save_failed env deleted txid (delete_resource key env.now r) s
            (rw (h.found, delete_body) at k))

    -- A call of Delete at the key of a resource that the repository holds gives an error and changes
    -- nothing, or leaves a tombstone.
    pub delete-IsDeleted :
        Holds key r rr s
        → let (e, s') = delete fake_repository env key s in
          (is_some e ≡ true × s' ≡ s) ⊎ ((e ≡ none) × IsDeleted key r rr s')
    unfolding delete fake_transaction
    delete-IsDeleted h = elim (Result-cases (admit_delete env key)) [
      | inr (x, e) ↦ inl (rw (e, delete) (refl, refl))
      | inl (txid, e) ↦
          rw (e, delete)
            (elim (Option-cases (delete_body fake_repository env key txid s).0) [
              | inl k ↦ inr (rw k (refl, delete_body-IsDeleted txid h k))
              | inr (x, k) ↦ inl (rw k (refl, delete_failed txid h (rw k refl)))
            ])
    ]
