-- ===== src/Registry/Changes.antt =====
-- The update of one component of a project (app/domain/registry/entities/project.py,
-- `Component.apply_update`).
use release_controller.Prelude.{
  ℕ, String, Bool, ◌||◌, Option, none, List, [], ◌∷◌, or_else, str_eq, if◌then◌else◌, Outcome, ok,
  err, ◌>>=◌,
}
use release_controller.Registry.Project.{
  Component, Project, RegistryError, slot_conflict, component_not_found, is_publishable, kept_or,
}

-- The arguments of `Component.apply_update`; `none` leaves a field alone.
pub record ComponentUpdate : Type 0 where
  pub display_name : Option String
  pub drone_owner : Option String
  pub drone_repo : Option String
  pub promote_target_override : Option String
  pub clear_promote_target_override : Bool
  pub drone_connection_id : Option String
  pub publish_enabled : Option Bool
  pub gitea_owner : Option String
  pub gitea_repo : Option String
  pub gitea_connection_id : Option String
  pub tag_prefix : Option String
  pub is_active : Option Bool

abbrev updated : ComponentUpdate → ℕ → Component → Component
updated w now c = record c {
  display_name = or_else w.display_name c.display_name;
  drone_owner = or_else w.drone_owner c.drone_owner;
  drone_repo = or_else w.drone_repo c.drone_repo;
  promote_target_override =
      if w.clear_promote_target_override
      then none
      else kept_or w.promote_target_override c.promote_target_override;
  drone_connection_id = kept_or w.drone_connection_id c.drone_connection_id;
  publish_enabled = or_else w.publish_enabled c.publish_enabled;
  gitea_owner = kept_or w.gitea_owner c.gitea_owner;
  gitea_repo = kept_or w.gitea_repo c.gitea_repo;
  gitea_connection_id = kept_or w.gitea_connection_id c.gitea_connection_id;
  tag_prefix = or_else w.tag_prefix c.tag_prefix;
  is_active = or_else w.is_active c.is_active;
  updated_at = now;
}

-- `assert_publishable`
unfoldable pub asserted : Component → Outcome RegistryError Component
asserted c = if is_publishable c then ok c else err slot_conflict

unfoldable pub update_component : ComponentUpdate → ℕ → Component → Outcome RegistryError Component
update_component w now c = asserted (updated w now c)

-- `Project.component`, and an operation on what it finds, in its place in the list.
unfoldable pub on_component :
    String
    → (Component → Outcome RegistryError Component)
    → List Component
    → Outcome RegistryError (List Component)
on_component ref f [] = err component_not_found
on_component ref f (c ∷ cs) =
    let rest = on_component ref f cs in
    if str_eq c.id ref || str_eq c.key ref
    then f c >>= (λ c'. ok (c' ∷ cs))
    else rest >>= λ cs'. ok (c ∷ cs')

unfoldable pub change_component :
    String → ComponentUpdate → ℕ → Project → Outcome RegistryError Project
change_component ref w now p = on_component ref (update_component w now) p.components >>= λ cs.
    ok (record p { components = cs })
