-- ===== src/UseCases/Reports/Runs.antt =====
-- What sequences of ReportResource and Delete at one key leave in the repository in memory.
use inventory_api.Base.{
  ◌≡◌, ◌∙◌, sym, inl, inr, Bool, true, false, Option, none, some, arith, CaseTables, List, [], All,
  ◌∷◌, length, ℕ, suc,
}
use mathlib.Core.Path.{subst}
use inventory_api.Model.Values.{Uuid}
use inventory_api.Model.ReporterResource.{ReporterResource, ReporterResourceKey}
use inventory_api.Model.Resource.{Resource, is_given}
use inventory_api.Model.Resource.Versions.{Advances}
use inventory_api.Model.Resource.Runs.{HasRoomFor, HasRoomFor-HasVersionRoom}
use inventory_api.Store.Fake.{fake_repository}
use inventory_api.Store.State.{FakeRepository}
use inventory_api.Store.Fake.Saves.{unlinked}
use inventory_api.Store.Fake.Updates.{Holds}
use inventory_api.Store.Fake.Deletes.{after_delete}
use inventory_api.UseCases.Reports.{Environment, report_resource, delete, key_of}
use inventory_api.UseCases.Commands.{ReportResourceCommand}
use inventory_api.UseCases.Reports.Calls.{report_resource-IsReported, delete-IsDeleted}

-- Calls of the two use cases, each in an environment of its own.
pub data Call : Type 0 where
  report : Environment → ReportResourceCommand → Call
  delete_at : Environment → ReporterResourceKey → Call

abbrev pub IsAt : ReporterResourceKey → Call → Type 0
IsAt key (report env cmd) = key_of cmd ≡ key
IsAt key (delete_at env key') = key' ≡ key

room_after :
    (n : ℕ) (b : Bool) (last common' last' : Option ℕ)
    → HasRoomFor (suc n) last
    → Advances b last common' last'
    → HasRoomFor n last'
room_after n true last none last' h a = absurd a.0
room_after n true none (some v) last' h a = ground arith
room_after n true (some w) (some v) last' h a = ground arith
room_after n false none common' last' h a = ground arith
room_after n false (some w) common' last' h a = ground arith

less_room : (n : ℕ) (last : Option ℕ) → HasRoomFor (suc n) last → HasRoomFor n last
less_room n none h = omega arith
less_room n (some v) h = omega arith

module _ ⦃t : CaseTables⦄ where
  -- The repository after a call.
  unfoldable pub called : Call → FakeRepository → FakeRepository
  called (report env cmd) s = (report_resource fake_repository env cmd s).1
  called (delete_at env key) s = (delete fake_repository env key s).1

  unfoldable pub all_called : List Call → FakeRepository → FakeRepository
  unfolding called
  all_called [] s = s
  all_called (c ∷ cs) s = all_called cs (called c s)

  -- The resource of an identity, held at the key with room for further versions.
  pub record Keeps (key : ReporterResourceKey) (id : Uuid) (n : ℕ) (s : FakeRepository)
      : Type 0 where
    pub resource : Resource
    pub rr : ReporterResource
    pub held : Holds key resource rr s
    pub same_id : resource.id ≡ id
    pub room : HasRoomFor n resource.last_common_version

  module _ (key : ReporterResourceKey) (id : Uuid) where
    unchanged : (n : ℕ) (s : FakeRepository) → Keeps key id (suc n) s → Keeps key id n s
    unchanged n s k = record {
      resource = k.resource;
      rr = k.rr;
      held = k.held;
      same_id = k.same_id;
      room = less_room n k.resource.last_common_version k.room;
    }

    called-Keeps :
        (n : ℕ) (c : Call) (s : FakeRepository)
        → IsAt key c
        → Keeps key id (suc n) s
        → Keeps key id n (called c s)
    unfolding called
    called-Keeps n (report env cmd) s here k =
        let h = subst (λ q. Holds q k.resource k.rr s) (sym here) k.held in
        let room = HasRoomFor-HasVersionRoom n k.resource.last_common_version k.room in
        elim (report_resource-IsReported env cmd k.resource k.rr s h room) [
          | inl same ↦ rw same (unchanged n s k)
          | inr i ↦ record {
            resource = i.resource;
            rr = i.new;
            held = subst (λ q. Holds q i.resource i.new (called (report env cmd) s)) here i.held;
            same_id = i.same_id ∙ k.same_id;
            room =
                room_after n (is_given cmd.common_representation) k.resource.last_common_version
                  i.resource.common_version i.resource.last_common_version k.room i.versions;
          }
        ]
    called-Keeps n (delete_at env key') s here k =
        let h = subst (λ q. Holds q k.resource k.rr s) (sym here) k.held in
        elim (delete-IsDeleted env key' k.resource k.rr s h) [
          | inl (failed, same) ↦ rw same (unchanged n s k)
          | inr (done, i) ↦ record {
            resource = i.resource;
            rr = unlinked (after_delete env.now k.rr);
            held =
                subst
                  (λ q.
                    Holds q i.resource (unlinked (after_delete env.now k.rr))
                      (called (delete_at env key') s))
                  here i.held;
            same_id = i.same_id ∙ k.same_id;
            room = rw i.same_last_version (less_room n k.resource.last_common_version k.room);
          }
        ]

    -- Whatever calls of the two use cases at a key run one after the other, with errors or without, on
    -- a repository in memory that holds a resource there, with room for as many common versions: the
    -- repository keeps holding that resource, so a search for the key finds it and nothing else
    -- matches, its counters are in step, and its last common version is the highest that was stored.
    pub all_called-Keeps :
        (cs : List Call) (s : FakeRepository)
        → All (IsAt key) cs
        → Keeps key id (length cs) s
        → Keeps key id 0 (all_called cs s)
    unfolding all_called
    all_called-Keeps [] s a k = k
    all_called-Keeps (c ∷ cs) s (a, rest) k =
        all_called-Keeps cs (called c s) rest (called-Keeps (length cs) c s a k)
