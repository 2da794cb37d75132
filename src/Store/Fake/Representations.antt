-- ===== src/Store/Fake/Representations.antt =====
-- internal/data/fake_resource_repository.go: FindCurrentAndPreviousVersionedRepresentations and
-- FindLatestRepresentations. The history of a key goes by the version of the reporter's representation,
-- and the version that is asked for is read as one of those.
use inventory_api.Base.{
  ℕ, ◌-◌, Option, none, some, List, [], ◌∷◌, list_eq, nat_eq, ltb, if◌then◌else◌, look, CaseTables,
  Result, ok, err, ◌>>=◌,
}
use inventory_api.Model.ReporterResource.{ReporterResourceKey}
use inventory_api.Model.Representations.{Representations, new_representations}
use inventory_api.Store.Repository.{Fault, domain, no_representations}
use inventory_api.Store.Fake.{make_history_key}
use inventory_api.Store.State.{StoredRepresentation, FakeRepository, history_or_empty}

unfoldable pub representations_of : StoredRepresentation → Result Fault Representations
unfolding new_representations
representations_of x = elim (new_representations x.common_data (some x.common_version) none none) [
  | ok r ↦ ok r
  | err e ↦ err (domain e)
]

-- The entry of a version, if there is one.
abbrev pub entry_at : Option StoredRepresentation → Result Fault (Option Representations)
entry_at none = ok none
entry_at (some x) = elim (representations_of x) [ ok r ↦ ok (some r) | err e ↦ err e ]

unfoldable pub latest_entry :
    Option (ℕ × StoredRepresentation)
    → List (ℕ × StoredRepresentation)
    → Option StoredRepresentation
latest_entry none [] = none
latest_entry (some (v, x)) [] = some x
latest_entry none (y ∷ rest) = latest_entry (some y) rest
latest_entry (some (v, x)) ((w, y) ∷ rest) =
    latest_entry (if ltb v w then some (w, y) else some (v, x)) rest

module _ ⦃t : CaseTables⦄ where
  abbrev pub history_of :
      ReporterResourceKey → FakeRepository → Option (List (ℕ × StoredRepresentation))
  history_of key s =
      look
        (make_history_key key.local_resource_id key.reporter.reporter_type key.resource_type
          key.reporter.reporter_instance_id)
        s.representations_by_version

  unfoldable pub find_current_and_previous_versioned_representations :
      ReporterResourceKey
      → Option ℕ
      → FakeRepository
      → Result Fault (Option Representations × Option Representations)
  unfolding make_history_key representations_of
  find_current_and_previous_versioned_representations key none s = ok (none, none)
  find_current_and_previous_versioned_representations key (some v) s = elim (history_of key s) [
    | none ↦ err no_representations
    | some history ↦ do
      current ← entry_at (look v history)
      previous ← if ltb 0 v then entry_at (look (v - 1) history) else ok none
      ok (current, previous)
  ]

  unfoldable pub find_latest_representations :
      ReporterResourceKey → FakeRepository → Result Fault Representations
  unfolding make_history_key latest_entry representations_of
  find_latest_representations key s =
      elim (latest_entry none (history_or_empty (history_of key s))) [
        | none ↦ err no_representations
        | some x ↦ representations_of x
      ]
