-- ===== src/UseCases/Reports/First.antt =====
-- The first report at a key, and a delete that follows it, over the repository in memory.
use inventory_api.Base.{
  ◌≡◌, ◌⊎◌, inl, inr, none, CaseTables, ok, err, Text, Result-cases, look, nat_eq,
}
use inventory_api.Model.Values.{Uuid}
use inventory_api.Model.ReporterResource.{ReporterResource}
use inventory_api.Model.Resource.{Resource, new_resource}
use inventory_api.Model.Resource.Creation.{created_reporter_resource}
use inventory_api.Store.Repository.{record_not_found, created}
use inventory_api.Store.State.{FakeRepository}
use inventory_api.Store.Fake.{fake_repository, find_resource_by_keys}
use inventory_api.Store.Fake.Saves.{reloaded, unlinked}
use inventory_api.Store.Fake.Updates.{Holds}
use inventory_api.Store.Fake.Creates.{create-Holds}
use inventory_api.UseCases.Commands.{ReportResourceCommand}
use inventory_api.UseCases.Reports.{
  Environment, report_resource, report_body, create_resource, is_record_not_found, key_of,
  report_of,
}
use inventory_api.UseCases.Reports.Held.{report_resource-Ran}

module _ ⦃t : CaseTables⦄ (env : Environment) (cmd : ReportResourceCommand)
    (s : FakeRepository) where
  -- No resource at the key of the command, and none of the fresh id.
  pub record IsFresh (id : Uuid) : Type 0 where
    pub missing : find_resource_by_keys (key_of cmd) s ≡ err record_not_found
    pub next : env.next_resource_id ≡ ok id
    pub unseen : look id s.max_common_version_by_resource_id ≡ none

  -- A resource that the repository holds at the key.
  pub record IsHeld (s' : FakeRepository) : Type 0 where
    pub resource : Resource
    pub rr : ReporterResource
    pub held : Holds (key_of cmd) resource rr s'

  create_resource-IsHeld :
      (id : Uuid) (txid : Text) (own : Text)
      → IsFresh id
      → (create_resource fake_repository env cmd own txid s).0 ≡ none
      → IsHeld (create_resource fake_repository env cmd own txid s).1
  unfolding create_resource
  create_resource-IsHeld id txid own fresh h = elim (Result-cases env.next_reporter_resource_id) [
    | inr (x, e) ↦ cc (rw (fresh.next, e, create_resource) at h)
    | inl (id', e) ↦
        elim (Result-cases
          (new_resource id id' (key_of cmd) (report_of cmd own) env.now env.later)) [
            | inr (x, f) ↦ cc (rw (fresh.next, e, f, create_resource) at h)
            | inl (r, f) ↦
                let rr =
                  created_reporter_resource id id' (key_of cmd) (report_of cmd own) env.now
                    env.later in
                rw (fresh.next, e, f, create_resource)
                  (record {
                    resource = reloaded r rr;
                    rr = unlinked rr;
                    held =
                        create-Holds id id' (key_of cmd) (report_of cmd own) env.now env.later r s
                          env.later created txid f fresh.missing fresh.unseen
                          (rw (fresh.next, e, f, create_resource) at h);
                  })
          ]
  ]

  report_body-IsHeld :
      (id : Uuid) (own txid : Text)
      → IsFresh id
      → (report_body fake_repository env cmd own txid s).0 ≡ none
      → IsHeld (report_body fake_repository env cmd own txid s).1
  unfolding report_body is_record_not_found
  report_body-IsHeld id own txid fresh h =
      rw (fresh.missing, report_body)
        (create_resource-IsHeld id txid own fresh (rw (fresh.missing, report_body) at h))

  -- A report at a key where nothing is found, under a fresh id, changes nothing or leaves a resource
  -- that the repository holds at the key.
  pub report_resource-IsHeld :
      (id : Uuid)
      → IsFresh id
      → let s' = (report_resource fake_repository env cmd s).1 in (s' ≡ s) ⊎ IsHeld s'
  report_resource-IsHeld id fresh = elim (report_resource-Ran env cmd s) [
    | inl same ↦ inl same
    | inr (own, txid, k, e) ↦ inr (rw e (report_body-IsHeld id own txid fresh k))
  ]
