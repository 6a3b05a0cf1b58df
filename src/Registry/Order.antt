-- ===== src/Registry/Order.antt =====
-- The order of the components of a project (app/domain/registry/entities/project.py).
use mathlib.Core.Path.{subst}
use release_controller.Prelude.{
  ℕ, zero, suc, ◌≤◌, String, ◌≡◌, refl, ◌⊎◌, inl, inr, true, Option, none, some, List, [], ◌∷◌,
  arith, str_eq, All, Bool-cases, Option-cases, or_else, if-both,
}
use release_controller.Registry.Project.{
  is_publishable, pos, negsuc, pick_all, Component, Project, ℤ, insert_at, renumber, without, by_id,
  inherit_all,
}

-- The positions count up from `n`.
abbrev pub IsNumbered : ℕ → List Component → Type 0
IsNumbered n [] = Unit
IsNumbered n (c ∷ cs) = (c.position ≡ n) × IsNumbered (suc n) cs

-- The component has the present defaults of the project, and a Gitea repository if it is published.
abbrev pub Fits : Project → Component → Type 0
Fits p c =
    (c.project_default_target ≡ p.default_target)
    × (c.project_drone_connection_id ≡ p.drone_connection_id)
    × (c.project_gitea_connection_id ≡ p.gitea_connection_id)
    × (is_publishable c ≡ true)

pub record IsOrdered (p : Project) : Type 0 where
  pub numbered : IsNumbered 1 p.components
  pub fits : All (Fits p) p.components

pub renumber-IsNumbered : (n : ℕ) (cs : List Component) → IsNumbered n (renumber n cs)
unfolding renumber
renumber-IsNumbered n [] = tt
renumber-IsNumbered n (c ∷ cs) = (refl, renumber-IsNumbered (suc n) cs)

pub renumber-Fits :
    (p : Project) (n : ℕ) (cs : List Component) → All (Fits p) cs → All (Fits p) (renumber n cs)
unfolding renumber is_publishable
renumber-Fits p n [] h = tt
renumber-Fits p n (c ∷ cs) h = (h.0, renumber-Fits p (suc n) cs h.1)

pub insert_at-Fits :
    (p : Project) (n : ℕ) (c : Component) (cs : List Component)
    → Fits p c
    → All (Fits p) cs
    → All (Fits p) (insert_at n c cs)
unfolding insert_at
insert_at-Fits p zero c cs h k = (h, k)
insert_at-Fits p (suc n) c [] h k = (h, tt)
insert_at-Fits p (suc n) c (x ∷ cs) h k = (k.0, insert_at-Fits p n c cs h k.1)

pub without-Fits :
    (p : Project) (id : String) (cs : List Component)
    → All (Fits p) cs
    → All (Fits p) (without id cs)
unfolding without
without-Fits p id [] h = tt
without-Fits p id (c ∷ cs) h =
    let rest = without-Fits p id cs h.1 in
    if-both (All (Fits p)) (str_eq c.id id) _ _ (λ _. rest) (λ _. (h.0, rest))

by_id-Fits :
    (p : Project) (id : String) (cs : List Component) (c : Component)
    → All (Fits p) cs
    → by_id id cs ≡ some c
    → Fits p c
unfolding by_id
by_id-Fits p id [] c h e = absurd (cc)
by_id-Fits p id (x ∷ cs) c h e = elim (Option-cases (by_id id cs)) [
  | inr (later, found) ↦ by_id-Fits p id cs c h.1 (ground arith)
  | inl missing ↦ elim (Bool-cases (str_eq x.id id)) [
    | inl same ↦ ground arith
    | inr other ↦ absurd (ground arith)
  ]
]

pub inherit_all-Fits :
    (p p' : Project) (cs : List Component) → All (Fits p) cs → All (Fits p') (inherit_all p' cs)
unfolding inherit_all is_publishable
inherit_all-Fits p p' [] h = tt
inherit_all-Fits p p' (c ∷ cs) h = ((refl, refl, refl, h.0.3), inherit_all-Fits p p' cs h.1)

pub inherit_all-IsNumbered :
    (p : Project) (n : ℕ) (cs : List Component) → IsNumbered n cs → IsNumbered n (inherit_all p cs)
unfolding inherit_all
inherit_all-IsNumbered p n [] h = tt
inherit_all-IsNumbered p n (c ∷ cs) h = (h.0, inherit_all-IsNumbered p (suc n) cs h.1)

pub pick_all-Fits :
    (p : Project) (ids : List String) (cs out : List Component)
    → All (Fits p) cs
    → pick_all ids cs ≡ some out
    → All (Fits p) out
unfolding pick_all
pick_all-Fits p [] cs out h e = subst (λ o. All (Fits p) (or_else o [])) e tt
pick_all-Fits p (id ∷ ids) cs out h e = elim (Option-cases (by_id id cs)) [
  | inl missing ↦ absurd (ground arith)
  | inr (c, found) ↦ elim (Option-cases (pick_all ids cs)) [
    | inl missing ↦ absurd (ground arith)
    | inr (rest, picked) ↦
        let head = by_id-Fits p id cs c h found in
        let tail = pick_all-Fits p ids cs rest h picked in
        let same : some (c ∷ rest) ≡ some out = ground arith in
        subst (λ o. All (Fits p) (or_else o [])) same (head, tail)
  ]
]

-- Which position a request is given, among 1 to `suc size`.
abbrev pub Lands : ℕ → Option ℤ → ℕ → Type 0
Lands size none p = p ≡ suc size
Lands size (some (negsuc n)) p = p ≡ 1
Lands size (some (pos zero)) p = p ≡ suc size
Lands size (some (pos (suc n))) p = ((n ≤ size) × (p ≡ suc n)) ⊎ ((size ≤ n) × (p ≡ suc size))
