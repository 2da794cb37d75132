-- ===== src/Tests/Stores.antt =====
-- The properties of the repository in memory and of transactions at concrete inputs.
use inventory_api.Base.{
  ◌≡◌, refl, inl, Bool, true, false, Option, none, some, List, [], ◌∷◌, look, ok, err, Result, ℕ,
  zero, suc, ◌+◌, arith, ascii, codes,
}
use inventory_api.Model.Resource.{matches_key}
use inventory_api.Model.Serialization.{serialize_resource, serialize_reporter_resource}
use inventory_api.Store.Repository.{Fault, updated, postgres, Run}
use inventory_api.Store.Fake.{save, find_resource_by_keys, save_snapshots}
use inventory_api.Store.State.{FakeRepository, new_fake_resource_repository, stored_resource}
use inventory_api.Store.Fake.Saves.{find-save, reloaded, last_after}
use inventory_api.Store.Transactions.{handle_serializable_transaction}
use inventory_api.Store.Transactions.Attempts.{handle_serializable_transaction-IsAtomic, IsAtomic}
use inventory_api.Tests.Data.{host, host_resource, alive_host}

-- A repository that stored the host once.
abbrev pub host_repository : FakeRepository
host_repository = record new_fake_resource_repository {
  resources_by_primary_key =
      (
        2,
        record {
          resource_id = 1;
          resource_type = codes "host";
          common_version = none;
          common_data = none;
          consistency_token = [];
          reporter_resource_id = 2;
          local_resource_id = codes "host-1";
          reporter_type = codes "hbi";
          reporter_instance_id = codes "one";
          representation_version = 4;
          generation = 1;
          tombstone = false;
          created_at = 10;
          updated_at = 20;
        },
      )
      ∷ [];
  max_common_version_by_resource_id = (1, 3) ∷ [];
}

matches_host : matches_key host host ≡ true
unfolding matches_key inventory_api.Base.list_beq inventory_api.Base.equal_fold
matches_host = refl

saves_host : (save 30 host_resource updated (codes "tx") host_repository).0 ≡ none
unfolding save save_snapshots new_fake_resource_repository serialize_resource
    serialize_reporter_resource stored_resource inventory_api.Base.look
saves_host = refl

find-save_example :
    find_resource_by_keys host (save 30 host_resource updated (codes "tx") host_repository).1
    ≡ ok (
        reloaded
          (record host_resource {
            last_common_version = last_after 30 host_resource host_repository;
          })
          alive_host)
unfolding new_fake_resource_repository
find-save_example =
    find-save host 30 host_resource alive_host updated (codes "tx") host_repository
      (record { single = refl; typed = refl; owned = refl }) matches_host ((λ h. cc), tt) saves_host

-- A counter that others count up too, before each attempt.
abbrev others : ℕ → ℕ → ℕ
others i n = n + 10

-- The first commit fails to serialize.
abbrev commits : ℕ → ℕ → Result Fault ℕ
commits i n = elim i [ zero ↦ err (postgres (codes "40001")) | suc _ ↦ ok n ]

abbrev counts : Run ℕ
counts n = (none, n + 1)

handle_serializable_transaction-IsAtomic_example :
    IsAtomic others commits counts 3 0 (handle_serializable_transaction others commits 3 counts 0)
handle_serializable_transaction-IsAtomic_example =
    handle_serializable_transaction-IsAtomic others commits counts 3 0
