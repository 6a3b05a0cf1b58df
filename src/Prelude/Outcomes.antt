-- ===== src/Prelude/Outcomes.antt =====
-- A call that returns or raises, for an exception type of the component's own.
use mathlib.Core.Path.{◌≡◌, refl}
use mathlib.Core.Logic.{◌⊎◌, inl, inr}

pub data Outcome {ℓ κ} (E : Type ℓ) (A : Type κ) : Type (ℓ ⊔ κ) where
  ok : A → Outcome E A
  err : E → Outcome E A

infixl 5 ◌>>=◌
abbrev pub ◌>>=◌ {ℓ κ μ} :
    {E : Type ℓ} {A : Type κ} {B : Type μ} → Outcome E A → (A → Outcome E B) → Outcome E B
ok a >>= f = f a
err e >>= f = err e

pub Outcome-cases {ℓ κ} :
    {E : Type ℓ} {A : Type κ} (o : Outcome E A) → ((a : A) × (o ≡ ok a)) ⊎ ((e : E) × (o ≡ err e))
Outcome-cases (ok a) = inl (a, refl)
Outcome-cases (err e) = inr (e, refl)

-- A predicate holds of what is returned, if anything is.
abbrev pub Whenever {ℓ κ μ} : {E : Type ℓ} {A : Type κ} → (A → Type μ) → Outcome E A → Type μ
Whenever P (ok a) = P a
Whenever P (err e) = Unit

pub bind-Whenever {ℓ κ μ ν} :
    {E : Type ℓ} {A : Type κ} {B : Type μ} (P : B → Type ν) (o : Outcome E A) (f : A → Outcome E B)
    → ((a : A) → o ≡ ok a → Whenever P (f a))
    → Whenever P (o >>= f)
bind-Whenever P (ok a) f h = h a refl
bind-Whenever P (err e) f h = tt

-- From what holds of the first result.
pub Whenever-bind {ℓ κ μ ν ξ} :
    {E : Type ℓ} {A : Type κ} {B : Type μ} (Q : A → Type ξ) (P : B → Type ν) (o : Outcome E A)
    (f : A → Outcome E B)
    → Whenever Q o
    → ((a : A) → Q a → Whenever P (f a))
    → Whenever P (o >>= f)
Whenever-bind Q P (ok a) f q h = h a q
Whenever-bind Q P (err e) f q h = tt
