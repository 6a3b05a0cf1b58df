-- ===== src/Prelude/Lists.antt =====
-- Lists over the native numbers, Python's `any`, and a predicate that holds of every item.
use Prim.Native.Nat.{ℕ, suc, ◌+◌}
use mathlib.Core.Path.{◌≡◌}
use mathlib.Core.Bool.{Bool, true, false, ◌||◌}
use mathlib.Core.List.{List, [], ◌∷◌, ◌++◌}
use native.Mathlib.Omega.{arith}

module _ {ℓ} {A : Type ℓ} where
  abbrev pub length : List A → ℕ
  length [] = 0
  length (x ∷ xs) = suc (length xs)

  pub length-append : (xs ys : List A) → length (xs ++ ys) ≡ length xs + length ys
  length-append [] ys = omega arith
  length-append (x ∷ xs) ys = omega (arith, length-append xs ys)

  abbrev pub any : (A → Bool) → List A → Bool
  any p [] = false
  any p (x ∷ xs) = p x || any p xs

  abbrev pub All {κ} : (A → Type κ) → List A → Type κ
  All P [] = Unit
  All P (x ∷ xs) = P x × All P xs

  pub All-append {κ} : (P : A → Type κ) (xs ys : List A) → All P xs → All P ys → All P (xs ++ ys)
  All-append P [] ys h k = k
  All-append P (x ∷ xs) ys h k = (h.0, All-append P xs ys h.1 k)

pub any-head {ℓ} :
    {A : Type ℓ} (p : A → Bool) (x : A) (xs : List A) → p x ≡ true → any p (x ∷ xs) ≡ true
any-head p x xs h = ground arith

pub any-tail {ℓ} :
    {A : Type ℓ} (p : A → Bool) (x : A) (xs : List A) → any p xs ≡ true → any p (x ∷ xs) ≡ true
any-tail p x xs h = ground arith

pub any-rest {ℓ} :
    {A : Type ℓ} (p : A → Bool) (x : A) (xs : List A)
    → p x ≡ false
    → any p (x ∷ xs) ≡ true
    → any p xs ≡ true
any-rest p x xs h k = ground arith
