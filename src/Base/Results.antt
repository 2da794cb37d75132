-- ===== src/Base/Results.antt =====
-- Go's `(value, error)`: a value or an error, with `do` for a chain of early returns.
use mathlib.Core.Path.{◌≡◌, refl}
use mathlib.Core.Logic.{◌⊎◌, inl, inr}
use mathlib.Core.Bool.{Bool, true, false}
use mathlib.Core.Option.{Option, none, some}

pub data Result {ℓ} (E : Type 0) (A : Type ℓ) : Type ℓ where
  ok : A → Result E A
  err : E → Result E A

-- `if !test { return err }`
abbrev pub guard : {E : Type 0} → Bool → E → Result E (Unit {0})
guard false e = err e
guard true e = ok tt

abbrev pub is_ok {ℓ} : {E : Type 0} {A : Type ℓ} → Result E A → Bool
is_ok (ok a) = true
is_ok (err e) = false

infixl 5 ◌>>=◌ ◌>>◌
abbrev pub ◌>>=◌ {ℓ κ} :
    {E : Type 0} {A : Type ℓ} {B : Type κ} → Result E A → (A → Result E B) → Result E B
err e >>= f = err e
ok a >>= f = f a

abbrev pub ◌>>◌ {ℓ κ} :
    {E : Type 0} {A : Type ℓ} {B : Type κ} → Result E A → Result E B → Result E B
err e >> next = err e
ok a >> next = next

-- Inversion of a successful bind, for proofs where the parts stay shut.
pub ok->>= {ℓ κ} :
    {E : Type 0} {A : Type ℓ} {B : Type κ} (first : Result E A) (next : A → Result E B) {b : B}
    → ok b ≡ (first >>= next)
    → (a : A) × (ok b ≡ next a) × (first ≡ ok a)
ok->>= (err e) next h = cc
ok->>= (ok a) next h = (a, h, refl)

-- A chain whose first two steps succeed.
pub bind_ok {ℓ κ} :
    {E : Type 0} {A : Type ℓ} {B : Type κ} (m : Result E (Unit {0})) (n : Result E A)
    (k : A → Result E B) {a : A}
    → m ≡ ok tt
    → n ≡ ok a
    → (m >> (n >>= k)) ≡ k a
bind_ok m n k h e = rw h (rw e refl)

pub then_ok {ℓ} :
    {E : Type 0} {A : Type ℓ} (m : Result E (Unit {0})) (n : Result E A) → m ≡ ok tt → (m >> n) ≡ n
then_ok m n h = rw h refl

pub Result-cases {ℓ} :
    {E : Type 0} {A : Type ℓ} (m : Result E A) → ((a : A) × (m ≡ ok a)) ⊎ ((e : E) × (m ≡ err e))
Result-cases (ok a) = inl (a, refl)
Result-cases (err e) = inr (e, refl)

-- A call that passes on a state: what to do with its value, and what with its error.
abbrev pub on_result {ℓ κ ι} :
    {E : Type 0} {A : Type ℓ} {S : Type κ} {X : Type ι}
    → Result E A × S
    → (A → S → X)
    → (E → S → X)
    → X
on_result (ok a, s) f g = f a s
on_result (err e, s) f g = g e s

abbrev pub on_option {ℓ κ ι} :
    {A : Type ℓ} {S : Type κ} {X : Type ι} → Option A × S → (A → S → X) → (S → X) → X
on_option (some a, s) f g = f a s
on_option (none, s) f g = g s

pub on_result-err {ℓ κ ι} :
    {E : Type 0} {A : Type ℓ} {S : Type κ} {X : Type ι} (x : Result E A × S) (f : A → S → X)
    (g : S → X)
    → is_ok x.0 ≡ false
    → on_result x f (λ e s. g s) ≡ g x.1
on_result-err (ok a, s) f g h = cc
on_result-err (err e, s) f g h = refl
