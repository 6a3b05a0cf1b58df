-- ===== src/Registry/Edits.antt =====
-- What any edits of a project keep (app/domain/registry/entities/project.py).
use mathlib.Core.Path.{subst}
use release_controller.Prelude.{
  ◌>>=◌, ◌||◌, ◌∙◌, true, any, Outcome-cases, err, ◌==◌, ◌&&◌, length, length, ◌&&◌, any, ℕ, suc,
  String, Bool, Option, none, some, List, [], ◌∷◌, All, ◌≡◌, refl, arith, ok, Outcome, if-both,
  str_eq, Bool-cases, inl, inr,
}
use release_controller.Registry.Project.{
  is_publishable, placed, distinct, covers, inherit, pick_all, Component, Project, ProjectUpdate,
  RegistryError, ℤ, add_component, without, remove_component, reorder, apply_update, set_archived,
}
use release_controller.Registry.Changes.{
  ComponentUpdate, asserted, update_component, on_component, change_component,
}
use release_controller.Registry.Order.{
  IsNumbered, Fits, IsOrdered, renumber-IsNumbered, renumber-Fits, insert_at-Fits, without-Fits,
  pick_all-Fits, inherit_all-Fits, inherit_all-IsNumbered,
}

pub data Edit : Type 0 where
  adding : Component → Option ℤ → Edit
  removing : String → Edit
  changing : String → ComponentUpdate → ℕ → Edit
  reordering : List String → Edit
  updating : ProjectUpdate → ℕ → Edit
  archiving : Bool → ℕ → Edit

-- An edit that raises leaves the project as it was: the request ends without a save.
abbrev saved : Outcome RegistryError Project → Project → Project
saved (ok p') p = p'
saved (err e) p = p

unfoldable pub edit : Edit → Project → Project
edit (adding c requested) p = saved (asserted c >>= λ c'. add_component c' requested p) p
edit (changing ref w now) p = saved (change_component ref w now p) p
edit (removing id) p = remove_component id p
edit (reordering ids) p = saved (reorder ids p) p
edit (updating w now) p = apply_update w now p
edit (archiving b now) p = set_archived b now p

unfoldable pub edits : List Edit → Project → Project
edits [] p = p
edits (e ∷ es) p = edits es (edit e p)

add_component-IsOrdered :
    (c : Component) (requested : Option ℤ) (p : Project)
    → is_publishable c ≡ true
    → IsOrdered p
    → IsOrdered (saved (add_component c requested p) p)
unfolding add_component is_publishable
add_component-IsOrdered c requested p ready h =
    let taken = any (λ (existing : Component). str_eq existing.key c.key) p.components in
    if-both (λ r. IsOrdered (saved r p)) taken _ _ (λ _. h)
      (λ _. record {
        numbered = renumber-IsNumbered 1 _;
        fits =
            renumber-Fits p 1 _
              (insert_at-Fits p _ (inherit p c) p.components (refl, refl, refl, ready) h.fits);
      })

-- `create` and `add_component`: a component that cannot be published does not come in.
adding-IsOrdered :
    (c : Component) (requested : Option ℤ) (p : Project)
    → IsOrdered p
    → IsOrdered (saved (asserted c >>= λ c'. add_component c' requested p) p)
unfolding asserted
adding-IsOrdered c requested p h =
    if-both (λ r. IsOrdered (saved (r >>= λ c'. add_component c' requested p) p)) (is_publishable c)
      _ _ (λ ready. add_component-IsOrdered c requested p ready h) (λ _. h)

update_component-Fits :
    (w : ComponentUpdate) (now : ℕ) (p : Project) (c c' : Component)
    → update_component w now c ≡ ok c'
    → Fits p c
    → (c'.position ≡ c.position) × Fits p c'
unfolding update_component asserted
update_component-Fits w now p c c' e h = ground arith

on_component-kept :
    (p : Project) (ref : String) (w : ComponentUpdate) (now n : ℕ) (cs out : List Component)
    → on_component ref (update_component w now) cs ≡ ok out
    → IsNumbered n cs
    → All (Fits p) cs
    → IsNumbered n out × All (Fits p) out
unfolding on_component
on_component-kept p ref w now n [] out e h k = absurd (cc)
on_component-kept p ref w now n (c ∷ cs) out e h k =
    elim (Bool-cases (str_eq c.id ref || str_eq c.key ref)) [
      | inl found ↦ elim (Outcome-cases (update_component w now c)) [
        | inr (x, refused) ↦ absurd (ground arith)
        | inl (c', changed) ↦
            let fits = update_component-Fits w now p c c' changed k.0 in
            let same : c' ∷ cs ≡ out = ground arith in
            subst (λ l. IsNumbered n l × All (Fits p) l) same ((fits.0 ∙ h.0, h.1), (fits.1, k.1))
      ]
      | inr other ↦ elim (Outcome-cases (on_component ref (update_component w now) cs)) [
        | inr (x, refused) ↦ absurd (ground arith)
        | inl (rest, changed) ↦
            let (numbered, fits) = on_component-kept p ref w now (suc n) cs rest changed h.1 k.1 in
            let same : c ∷ rest ≡ out = ground arith in
            subst (λ l. IsNumbered n l × All (Fits p) l) same ((h.0, numbered), (k.0, fits))
      ]
    ]

changed-IsOrdered :
    (p : Project) (r : Outcome RegistryError (List Component))
    → ((out : List Component) → r ≡ ok out → IsNumbered 1 out × All (Fits p) out)
    → IsOrdered p
    → IsOrdered (saved (r >>= λ cs. ok (record p { components = cs })) p)
changed-IsOrdered p (err e) f h = h
changed-IsOrdered p (ok cs) f h =
    let (numbered, fits) = f cs refl in record { numbered = numbered; fits = fits }

change_component-IsOrdered :
    (ref : String) (w : ComponentUpdate) (now : ℕ) (p : Project)
    → IsOrdered p
    → IsOrdered (saved (change_component ref w now p) p)
unfolding change_component
change_component-IsOrdered ref w now p h =
    changed-IsOrdered p (on_component ref (update_component w now) p.components)
      (λ out e. on_component-kept p ref w now 1 p.components out e h.numbered h.fits) h

placed-IsOrdered :
    (ids : List String) (found : Option (List Component)) (p : Project)
    → pick_all ids p.components ≡ found
    → IsOrdered p
    → IsOrdered (saved (placed ids found p) p)
unfolding placed
placed-IsOrdered ids none p e h = h
placed-IsOrdered ids (some cs) p e h =
    let complete = covers ids p.components && length ids == distinct p.components in
    if-both (λ r. IsOrdered (saved r p)) complete _ _
      (λ _. record {
        numbered = renumber-IsNumbered 1 cs;
        fits = renumber-Fits p 1 cs (pick_all-Fits p ids p.components cs h.fits e);
      })
      (λ _. h)

reorder-IsOrdered :
    (ids : List String) (p : Project) → IsOrdered p → IsOrdered (saved (reorder ids p) p)
unfolding reorder
reorder-IsOrdered ids p h = placed-IsOrdered ids _ p refl h

edit-IsOrdered : (e : Edit) (p : Project) → IsOrdered p → IsOrdered (edit e p)
unfolding edit remove_component apply_update set_archived is_publishable
edit-IsOrdered (adding c requested) p h = adding-IsOrdered c requested p h
edit-IsOrdered (changing ref w now) p h = change_component-IsOrdered ref w now p h
edit-IsOrdered (removing id) p h = record {
  numbered = renumber-IsNumbered 1 (without id p.components);
  fits = renumber-Fits p 1 _ (without-Fits p id p.components h.fits);
}
edit-IsOrdered (reordering ids) p h = reorder-IsOrdered ids p h
edit-IsOrdered (updating w now) p h = record {
  numbered = inherit_all-IsNumbered _ 1 p.components h.numbered;
  fits = inherit_all-Fits p _ p.components h.fits;
}
edit-IsOrdered (archiving b now) p h = record { numbered = h.numbered; fits = h.fits }

-- If the components of a project have the positions 1, 2, 3 and so on in the order of the list, each
-- has the project's defaults, and each that is published has a Gitea repository, then this is so
-- after any additions, removals, reorderings and updates of the components, and updates of the
-- project, those that are refused included.
pub edits-IsOrdered : (es : List Edit) (p : Project) → IsOrdered p → IsOrdered (edits es p)
unfolding edits
edits-IsOrdered [] p h = h
edits-IsOrdered (e ∷ es) p h = edits-IsOrdered es (edit e p) (edit-IsOrdered e p h)
