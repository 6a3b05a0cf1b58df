-- ===== src/Registry/Examples.antt =====
-- A project of two components, edited (app/domain/registry/entities/project.py).
use release_controller.Prelude.{String, ◌≡◌, refl, true, false, none, some, List, [], ◌∷◌, ok}
use release_controller.Registry.Project.{
  place_of, is_publishable, Component, Project, ProjectUpdate, pos, clamp_position, insert_at,
  renumber, add_component, remove_component,
}
use release_controller.Registry.Changes.{ComponentUpdate}
use release_controller.Registry.Order.{IsOrdered}
use release_controller.Registry.Edits.{
  Edit, adding, removing, changing, reordering, updating, edits, edits-IsOrdered,
}
use release_controller.Registry.Undo.{remove_component-add_component}

abbrev component : String → Component
component id = record {
  id = id;
  project_id = "p1";
  key = id;
  display_name = id;
  position = 1;
  drone_owner = "acme";
  drone_repo = id;
  project_default_target = "production";
  project_drone_connection_id = none;
  project_gitea_connection_id = none;
  promote_target_override = none;
  drone_connection_id = none;
  publish_enabled = false;
  gitea_owner = none;
  gitea_repo = none;
  gitea_connection_id = none;
  tag_prefix = "";
  is_active = true;
  created_at = 1;
  updated_at = 1;
}

abbrev project : Project
project = record {
  id = "p1";
  key = "shop";
  name = "Shop";
  description = none;
  default_target = "production";
  drone_connection_id = none;
  gitea_connection_id = none;
  is_archived = false;
  created_at = 1;
  updated_at = 1;
  components = component "api" ∷ record (component "web") { position = 2 } ∷ [];
}

abbrev staging : ProjectUpdate
staging = record {
  name = none;
  description = none;
  default_target = some "staging";
  drone_connection_id = none;
  gitea_connection_id = none;
  is_archived = none;
}

abbrev renamed : ComponentUpdate
renamed = record {
  display_name = some "Web";
  drone_owner = none;
  drone_repo = none;
  promote_target_override = some "canary";
  clear_promote_target_override = false;
  drone_connection_id = none;
  publish_enabled = none;
  gitea_owner = none;
  gitea_repo = none;
  gitea_connection_id = none;
  tag_prefix = none;
  is_active = none;
}

abbrev day : List Edit
day =
    adding (component "jobs") (some (pos 1))
    ∷ updating staging 4
    ∷ reordering ("web" ∷ "api" ∷ "jobs" ∷ [])
    ∷ changing "web" renamed 5
    ∷ removing "api"
    ∷ []

project-IsOrdered : IsOrdered project
unfolding is_publishable
project-IsOrdered = record {
  numbered = (refl, (refl, tt));
  fits = ((refl, refl, refl, refl), ((refl, refl, refl, refl), tt));
}

edits-IsOrdered_example : IsOrdered (edits day project)
edits-IsOrdered_example = edits-IsOrdered day project project-IsOrdered

-- The project with a third component between its two.
abbrev grown : Project
grown = record project {
  components =
      component "api"
      ∷ record (component "jobs") { position = 2 }
      ∷ record (component "web") { position = 3 }
      ∷ [];
}

grown-comes : add_component (component "jobs") (some (pos 2)) project ≡ ok grown
unfolding add_component place_of clamp_position insert_at renumber
grown-comes = refl

remove_component-add_component_example : remove_component "jobs" grown ≡ project
remove_component-add_component_example =
    remove_component-add_component (component "jobs") (some (pos 2)) project grown
      (refl, (refl, tt)) (refl, (refl, tt)) grown-comes
