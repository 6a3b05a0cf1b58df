-- ===== src/Creation/Lookup.antt =====
-- app/services/component_registry.py and app/usecase/registry/resolve_connection_usecase.py: which
-- project, component and connection a request means.
use release_controller.Prelude.{
  String, Bool, true, false, ◌&&◌, ◌||◌, Option, none, some, List, [], ◌∷◌, str_eq, if◌then◌else◌,
  Outcome, ok, err,
}
use release_controller.Registry.{ProjectComponent}
use release_controller.Creation.{
  ProjectRow, ConnectionKind, drone, gitea, Connection, CreationError, project_not_registered,
  no_default_project, component_not_registered, connection_not_found, no_default_connection,
}

abbrev with_key : String → List ProjectRow → Option ProjectRow
with_key key [] = none
with_key key (p ∷ ps) = if str_eq p.key key then some p else with_key key ps

unfoldable pub unarchived : List ProjectRow → List ProjectRow
unarchived [] = []
unarchived (p ∷ ps) = let rest = unarchived ps in if p.is_archived then rest else p ∷ rest

abbrev only_one : List ProjectRow → Outcome CreationError ProjectRow
only_one (p ∷ []) = ok p
only_one _ = err no_default_project

unfoldable pub default_project : List ProjectRow → Outcome CreationError ProjectRow
default_project projects = elim (with_key "default" projects) [
  | some seeded ↦ ok seeded
  | none ↦ only_one (unarchived projects)
]

unfoldable pub with_ref : String → List ProjectRow → Outcome CreationError ProjectRow
with_ref ref [] = err project_not_registered
with_ref ref (p ∷ ps) =
    let rest = with_ref ref ps in if str_eq p.id ref || str_eq p.key ref then ok p else rest

-- `ComponentRegistry.project`: no reference and an empty one are the same.
unfoldable pub project_of : List ProjectRow → Option String → Outcome CreationError ProjectRow
project_of projects none = default_project projects
project_of projects (some ref) =
    if str_eq ref "" then default_project projects else with_ref ref projects

abbrev pub component_with : String → List ProjectComponent → Outcome CreationError ProjectComponent
component_with key [] = err component_not_registered
component_with key (c ∷ cs) = if str_eq c.key key then ok c else component_with key cs

-- `for_key`, for a project that is given
unfoldable pub for_key : String → ProjectRow → Outcome CreationError ProjectComponent
for_key key project = component_with key project.components

abbrev connection_with : String → List Connection → Outcome CreationError Connection
connection_with id [] = err connection_not_found
connection_with id (c ∷ cs) = if str_eq c.id id then ok c else connection_with id cs

abbrev same_kind : ConnectionKind → ConnectionKind → Bool
same_kind drone drone = true
same_kind gitea gitea = true
same_kind _ _ = false

abbrev default_of : ConnectionKind → List Connection → Outcome CreationError Connection
default_of kind [] = err no_default_connection
default_of kind (c ∷ cs) =
    if same_kind c.kind kind && c.is_default then ok c else default_of kind cs

-- `ResolveConnectionUseCaseImpl.execute`: the first candidate that is not empty, or the default.
unfoldable pub resolve_connection :
    List Connection → ConnectionKind → List (Option String) → Outcome CreationError Connection
resolve_connection connections kind [] = default_of kind connections
resolve_connection connections kind (none ∷ ids) = resolve_connection connections kind ids
resolve_connection connections kind (some id ∷ ids) =
    let rest = resolve_connection connections kind ids in
    if str_eq id "" then rest else connection_with id connections

unfoldable pub drone_connection :
    List Connection → ProjectRow → ProjectComponent → Outcome CreationError Connection
drone_connection connections project c =
    resolve_connection connections drone (c.drone_connection_id ∷ project.drone_connection_id ∷ [])
