-- ===== src/Store/Fake/Finds.antt =====
-- What FindResourceByKeys of the fake repository finds.
use inventory_api.Base.{
  ◌≡◌, ◌≢◌, refl, Bool-cases, inl, inr, false, Option, none, some, List, [], ◌∷◌, arith, nat_eq,
  ◌==◌, if◌then◌else◌, put, remove, CaseTables,
}
use inventory_api.Model.Values.{Uuid}
use inventory_api.Model.ReporterResource.{ReporterResourceKey}
use inventory_api.Store.Fake.{matches_stored, latest_from, later_of}
use inventory_api.Store.State.{StoredResource}

module _ ⦃t : CaseTables⦄ (key : ReporterResourceKey) where
  -- No stored resource under another primary key than `id` matches the key.
  abbrev pub Alone : Uuid → List (Uuid × StoredResource) → Type 0
  Alone id [] = Unit {0}
  Alone id ((j, x) ∷ rest) = ((j == id) ≡ false → matches_stored key x ≡ false) × Alone id rest

  latest_from-remove :
      (id : Uuid) (best : Option StoredResource) (m : List (Uuid × StoredResource))
      → Alone id m
      → latest_from key best (remove id m) ≡ best
  unfolding latest_from remove
  latest_from-remove id best [] h = refl
  latest_from-remove id best ((j, x) ∷ rest) (h, hs) =
      ground (arith, h, latest_from-remove id best rest hs)

  -- What was put under a key is found, if nothing else matches.
  pub latest_from-put :
      (id : Uuid) (x : StoredResource) (m : List (Uuid × StoredResource))
      → Alone id m
      → latest_from key none (put id x m) ≡ (if matches_stored key x then some x else none)
  unfolding latest_from put
  latest_from-put id x m h =
      ground (arith, latest_from-remove id (some x) m h, latest_from-remove id none m h)

  latest_from-some :
      (x : StoredResource) (m : List (Uuid × StoredResource)) → latest_from key (some x) m ≢ none
  unfolding latest_from
  latest_from-some x [] h = cc
  latest_from-some x ((j, y) ∷ rest) h = elim (Bool-cases (matches_stored key y)) [
    | inl e ↦ latest_from-some (later_of (some x) y) rest (rw (e, latest_from) at h)
    | inr e ↦ latest_from-some x rest (rw (e, latest_from) at h)
  ]

  -- Where nothing is found, nothing matches.
  pub Alone-latest_from :
      (id : Uuid) (m : List (Uuid × StoredResource)) → latest_from key none m ≡ none → Alone id m
  unfolding latest_from
  Alone-latest_from id [] h = tt
  Alone-latest_from id ((j, x) ∷ rest) h = elim (Bool-cases (matches_stored key x)) [
    | inl e ↦ absurd (latest_from-some x rest (rw (e, latest_from) at h))
    | inr e ↦ (λ _. e, Alone-latest_from id rest (rw (e, latest_from) at h))
  ]
