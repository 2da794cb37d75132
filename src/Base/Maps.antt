-- ===== src/Base/Maps.antt =====
-- A Go map as an association list: a read, an assignment and a delete.
use mathlib.Core.Path.{◌≡◌}
use mathlib.Core.Option.{Option, none, some}
use mathlib.Core.List.{List, [], ◌∷◌}
use native.Mathlib.Omega.{arith}
use inventory_api.Base.Tests.{if◌then◌else◌}
use inventory_api.Base.Equality.{Eq, ◌==◌}

module _ {ℓ κ} {K : Type ℓ} {V : Type κ} ⦃e : Eq K⦄ where
  unfoldable pub look : K → List (K × V) → Option V
  look k [] = none
  look k ((j, v) ∷ rest) = if j == k then some v else look k rest

  unfoldable pub remove : K → List (K × V) → List (K × V)
  remove k [] = []
  remove k ((j, v) ∷ rest) = let rest' = remove k rest in if j == k then rest' else (j, v) ∷ rest'

  unfoldable pub put : K → V → List (K × V) → List (K × V)
  unfolding remove
  put k v m = (k, v) ∷ remove k m

  pub look-remove :
      (j k : K) (m : List (K × V)) → look j (remove k m) ≡ (if k == j then none else look j m)
  unfolding look remove
  look-remove j k [] = ground arith
  look-remove j k ((i, v) ∷ rest) =
      ground (arith, look-remove j k rest, e.beq_iff i k, e.beq_iff i j, e.beq_iff k j)

  pub look-put :
      (j k : K) (v : V) (m : List (K × V))
      → look j (put k v m) ≡ (if k == j then some v else look j m)
  unfolding look put
  look-put j k v m = ground (arith, look-remove j k m)
