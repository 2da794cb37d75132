-- ===== src/Base/Lists.antt =====
-- Lists over the native numbers, and membership by recursion.
use Prim.Native.Nat.{ℕ, suc, ◌+◌}
use mathlib.Core.Path.{◌≡◌, refl}
use mathlib.Core.Bool.{Bool, true, false, ◌||◌}
use mathlib.Core.Option.{Option, none, some}
use mathlib.Core.List.{List, [], ◌∷◌, ◌++◌}
use native.Mathlib.Omega.{arith}
use inventory_api.Base.Tests.{if◌then◌else◌}
use inventory_api.Base.Equality.{Eq, ◌==◌}

module _ {ℓ} {A : Type ℓ} where
  abbrev pub length : List A → ℕ
  length [] = 0
  length (x ∷ xs) = suc (length xs)

  pub length-append : (xs ys : List A) → length (xs ++ ys) ≡ length xs + length ys
  length-append [] ys = omega arith
  length-append (x ∷ xs) ys = omega (arith, length-append xs ys)

  -- Go's `len(s) > 0`.
  abbrev pub nonempty : List A → Bool
  nonempty [] = false
  nonempty (x ∷ xs) = true

  abbrev pub All {κ} : (A → Type κ) → List A → Type κ
  All P [] = Unit
  All P (x ∷ xs) = P x × All P xs

  -- `filter` with a Boolean test.
  unfoldable pub keep : (A → Bool) → List A → List A
  keep p [] = []
  keep p (x ∷ xs) = let rest = keep p xs in if p x then x ∷ rest else rest

-- `slices.Contains`, which also tells whether a key is in a set.
module _ {ℓ} {A : Type ℓ} ⦃e : Eq A⦄ where
  unfoldable pub contains : A → List A → Bool
  contains a [] = false
  contains a (x ∷ xs) = x == a || contains a xs

  pub contains-append :
      (a : A) (xs ys : List A) → contains a (xs ++ ys) ≡ (contains a xs || contains a ys)
  unfolding contains
  contains-append a [] ys = refl
  contains-append a (x ∷ xs) ys = ground (arith, contains-append a xs ys)

  -- The test may depend on the value alone, so equal values are kept alike.
  pub contains-keep :
      (a : A) (p : A → Bool) (xs : List A)
      → contains a (keep p xs) ≡ (if p a then contains a xs else false)
  unfolding contains keep
  contains-keep a p [] = ground arith
  contains-keep a p (x ∷ xs) = ground (arith, contains-keep a p xs, e.beq_iff x a)

-- A loop that returns a pointer to the first match, and a write through that pointer.
module _ {ℓ} {A : Type ℓ} where
  unfoldable pub find_first : (A → Bool) → List A → Option A
  find_first p [] = none
  find_first p (x ∷ xs) = if p x then some x else find_first p xs

  unfoldable pub modify_first : (A → Bool) → (A → A) → List A → List A
  modify_first p f [] = []
  modify_first p f (x ∷ xs) = if p x then f x ∷ xs else x ∷ modify_first p f xs

  pub find_first-holds :
      (p : A → Bool) (xs : List A) (a : A) → find_first p xs ≡ some a → p a ≡ true
  unfolding find_first
  find_first-holds p [] a h = cc
  find_first-holds p (x ∷ xs) a h = ground (arith, find_first-holds p xs a)

  pub find_first-modify_first :
      (p : A → Bool) (f : A → A) (xs : List A) (a : A)
      → find_first p xs ≡ some a
      → p (f a) ≡ true
      → find_first p (modify_first p f xs) ≡ some (f a)
  unfolding find_first modify_first
  find_first-modify_first p f [] a h k = cc
  find_first-modify_first p f (x ∷ xs) a h k = ground (arith, find_first-modify_first p f xs a)

  pub length-modify_first :
      (p : A → Bool) (f : A → A) (xs : List A) → length (modify_first p f xs) ≡ length xs
  unfolding modify_first
  length-modify_first p f [] = refl
  length-modify_first p f (x ∷ xs) = ground (arith, length-modify_first p f xs)

-- A Go map used as a set: its keys, each once. Go ranges over them in no fixed order; statements
-- about a set go by `contains`, which does not see the order.
module _ {ℓ} {A : Type ℓ} ⦃e : Eq A⦄ where
  unfoldable pub set_of : List A → List A
  unfolding contains
  set_of [] = []
  set_of (x ∷ xs) = let rest = set_of xs in if contains x xs then rest else x ∷ rest

  abbrev pub IsDistinct : List A → Type 0
  IsDistinct [] = Unit {0}
  IsDistinct (x ∷ xs) = (contains x xs ≡ false) × IsDistinct xs

  pub contains-set_of : (a : A) (xs : List A) → contains a (set_of xs) ≡ contains a xs
  unfolding set_of contains
  contains-set_of a [] = refl
  contains-set_of a (x ∷ xs) = ground (arith, contains-set_of a xs, e.beq_iff x a)

  pub set_of-IsDistinct : (xs : List A) → IsDistinct (set_of xs)
  unfolding set_of
  set_of-IsDistinct [] = tt
  set_of-IsDistinct (x ∷ xs) = ground (arith, contains-set_of x xs, set_of-IsDistinct xs)

  pub keep-IsDistinct : (p : A → Bool) (xs : List A) → IsDistinct xs → IsDistinct (keep p xs)
  unfolding keep
  keep-IsDistinct p [] h = tt
  keep-IsDistinct p (x ∷ xs) h = ground (arith, keep-IsDistinct p xs, contains-keep x p xs)
