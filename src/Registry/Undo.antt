-- ===== src/Registry/Undo.antt =====
-- Removing a component undoes its addition (app/domain/registry/entities/project.py).
use release_controller.Prelude.{
  ℕ, zero, suc, String, ◌≡◌, refl, sym, ap, ◌∙◌, inl, inr, false, Option, List, [], ◌∷◌, arith,
  str_eq, eq_iff, length, All, Bool-cases, ok,
}
use release_controller.Registry.Project.{
  place_of, Component, Project, ℤ, inherit, set_position, insert_at, renumber, add_component,
  without, remove_component,
}
use release_controller.Registry.Order.{IsNumbered}

-- No component of the list has this id.
abbrev pub Lacks : String → List Component → Type 0
Lacks id cs = All (λ (x : Component). str_eq x.id id ≡ false) cs

without-Lacks : (id : String) (cs : List Component) → Lacks id cs → without id cs ≡ cs
unfolding without
without-Lacks id [] h = refl
without-Lacks id (c ∷ cs) h = rw (h.0, without-Lacks id cs h.1) refl

without-insert_at :
    (n : ℕ) (c : Component) (cs : List Component)
    → Lacks c.id cs
    → without c.id (insert_at n c cs) ≡ cs
unfolding without insert_at
without-insert_at zero c cs h = rw ((eq_iff c.id c.id).1 refl) (without-Lacks c.id cs h)
without-insert_at (suc n) c [] h = rw ((eq_iff c.id c.id).1 refl) refl
without-insert_at (suc n) c (x ∷ cs) h = rw (h.0, without-insert_at n c cs h.1) refl

renumber-kept : (n : ℕ) (cs : List Component) → IsNumbered n cs → renumber n cs ≡ cs
unfolding renumber
renumber-kept n [] h = refl
renumber-kept n (c ∷ cs) h =
    ap (λ k. set_position k c ∷ renumber (suc n) cs) (sym h.0)
    ∙ ap (λ l. c ∷ l) (renumber-kept (suc n) cs h.1)

-- Numbers given before a removal do not matter after it.
renumber-without :
    (id : String) (m n : ℕ) (cs : List Component)
    → renumber m (without id (renumber n cs)) ≡ renumber m (without id cs)
unfolding renumber without
renumber-without id m n [] = refl
renumber-without id m n (c ∷ cs) = elim (Bool-cases (str_eq c.id id)) [
  | inl e ↦ rw e (renumber-without id m (suc n) cs)
  | inr e ↦ rw e (ap (λ l. set_position m c ∷ l) (renumber-without id (suc m) (suc n) cs))
]

-- If the components of a project are numbered 1, 2, 3 and so on, and none has the id of the new one,
-- then removing the new component, wherever it was put, gives back the project as it was.
pub remove_component-add_component :
    (c : Component) (requested : Option ℤ) (p p' : Project)
    → IsNumbered 1 p.components
    → Lacks c.id p.components
    → add_component c requested p ≡ ok p'
    → remove_component c.id p' ≡ p
unfolding add_component remove_component
remove_component-add_component c requested p p' numbered fresh added =
    let at = place_of requested (length p.components) in
    let list = insert_at at (inherit p c) p.components in
    let here : p' ≡ record p { components = renumber 1 list } = ground arith in
    let back : renumber 1 (without c.id (renumber 1 list)) ≡ p.components =
      renumber-without c.id 1 1 list
      ∙ ap (λ l. renumber 1 l) (without-insert_at at (inherit p c) p.components fresh)
      ∙ renumber-kept 1 p.components numbered in
    rw here (ap (λ l. record p { components = l }) back)
