-- ===== src/Creation/Selection.antt =====
-- `_selected_components` and `_target_for` of app/services/release_orchestrator.py: which builds of
-- which components a release is for, in the order of deployment.
use release_controller.Prelude.{
  ℕ, String, Option, none, some, List, [], ◌∷◌, leb, if◌then◌else◌, Outcome, ok, err, ◌>>=◌,
  or_text,
}
use release_controller.Registry.{ProjectComponent}
use release_controller.Creation.{ProjectRow, CreationError, component_not_selectable, BundleRequest}
use release_controller.Creation.Lookup.{for_key}

abbrev pub target_for : ProjectComponent → String → String
target_for c release_target = or_text c.promote_target_override release_target

abbrev legacy_build : String → Option ℕ → List (String × ℕ) → List (String × ℕ)
legacy_build key none rest = rest
legacy_build key (some n) rest = (key, n) ∷ rest

unfoldable pub requested : BundleRequest → List (String × ℕ)
requested payload = elim payload.components [
  | [] ↦
      legacy_build "backend" payload.backend_build_number
        (legacy_build "frontend" payload.frontend_build_number [])
  | item ∷ items ↦ item ∷ items
]

abbrev pub Selected : Type 0
Selected = ProjectComponent × ℕ

-- `selection.sort(key=...)`: equal positions keep their order.
unfoldable pub insert_selected : Selected → List Selected → List Selected
insert_selected x [] = x ∷ []
insert_selected x (y ∷ ys) =
    let rest = insert_selected x ys in
    if leb x.0.position y.0.position then x ∷ y ∷ ys else y ∷ rest

abbrev pub select : String × ℕ → ProjectComponent → Outcome CreationError Selected
select item c = if c.is_active then ok (c, item.1) else err component_not_selectable

unfoldable pub select_all : ProjectRow → List (String × ℕ) → Outcome CreationError (List Selected)
select_all project [] = ok []
select_all project (item ∷ items) = do
  c ← for_key item.0 project
  one ← select item c
  rest ← select_all project items
  ok (one ∷ rest)

abbrev pub sort_selected : List Selected → List Selected
sort_selected [] = []
sort_selected (x ∷ xs) = insert_selected x (sort_selected xs)

unfoldable pub selected_components :
    ProjectRow → BundleRequest → Outcome CreationError (List Selected)
selected_components project payload = do
  selection ← select_all project (requested payload)
  ok (sort_selected selection)
