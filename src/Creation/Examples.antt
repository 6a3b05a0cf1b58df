-- ===== src/Creation/Examples.antt =====
-- A release of two components, asked for in the wrong order.
use release_controller.Prelude.{
  ℕ, ◌+◌, String, ◌≡◌, refl, ◌⊎◌, true, false, none, some, List, [], ◌∷◌, Outcome, ok, err,
  Whenever,
}
use release_controller.Registry.{ProjectComponent}
use release_controller.Drone.Fixtures.{api}
use release_controller.Drone.{is_promotable, DroneBuild}
use release_controller.Drone.Builds.{validate_promotable, repository_of, get_build, DroneClient}
use release_controller.Workflow.{failed}
use release_controller.Deployment.{Deployment}
use release_controller.Deployment.Fixtures.{build, upstream, fresh}
use release_controller.Orchestrator.Verdict.{Shape}
use release_controller.Creation.{
  ProjectRow, Connection, ConnectionKind, BundleRequest, Site, CreationError, Draft,
  duplicate_promotion,
}
use release_controller.Creation.Bundle.{
  prepare_bundle, validate_and_write, validate_all, validate_one, write_bundle, create_all,
  note_stage, new_bundle, prepare_bundle, Demands, Creation, create_bundle, prepare_standalone,
}
use release_controller.Creation.Lookup.{
  project_of, default_project, for_key, drone_connection, resolve_connection, unarchived,
}
use release_controller.Creation.Selection.{
  selected_components, select_all, requested, insert_selected,
}
use release_controller.Creation.Insert.{
  assert_not_duplicate, create, flush, insert_row, new_deployment,
}
use release_controller.Deployment.Slots.{Taken, same_slot}
use release_controller.Creation.Refusal.{wanted, Added, prepare_standalone-Decides}
use release_controller.Creation.Ordered.{Fits, selected_components-Fits}
use release_controller.Creation.Fresh.{create_bundle-Shape}

abbrev web : ProjectComponent
web = record api {
  id = "c2";
  key = "frontend";
  position = 2;
  drone_repo = "web";
  drone_connection_id = none;
}

abbrev shop : ProjectRow
shop = record {
  id = "p1";
  key = "default";
  default_target = "production";
  drone_connection_id = none;
  gitea_connection_id = none;
  is_archived = false;
  components = api ∷ web ∷ [];
}

abbrev site : Site
site = record {
  projects = shop ∷ [];
  connections = record { id = "d1"; kind = ConnectionKind.drone; is_default = true } ∷ [];
  policy = λ component_id target. none;
  new_id = λ k. "new";
  others = λ rows. rows;
}

abbrev pushed : ℕ → DroneBuild
pushed number = record (build number) { event = "push" }

abbrev client : DroneClient
client = record {
  list_builds = λ call c owner name limit. ok [];
  get_build = λ call c owner name number. ok (pushed number);
  promote_build = λ call c owner name number target. ok (build (number + 1));
}

abbrev request : BundleRequest
request = record {
  project_id = none;
  components = ("frontend", 9) ∷ ("backend", 7) ∷ [];
  frontend_build_number = none;
  backend_build_number = none;
  target = none;
  requested_by = some "ann";
}

abbrev free_hand : Demands
free_hand = record { expected_commits = none; required_target = none }

-- An earlier deployment of the same build that failed.
abbrev table : List Deployment
table = record (fresh "old") { status = failed } ∷ []

abbrev default_connection : Connection
default_connection = record { id = "d1"; kind = ConnectionKind.drone; is_default = true }

web-connection : drone_connection site.connections shop web ≡ ok default_connection
unfolding drone_connection resolve_connection
web-connection = refl

prepare_standalone-Decides_example :
    ((prepare_standalone (upstream client) site shop web (build 7) "production" none 0 table
        ≡ err duplicate_promotion)
      × (Taken (wanted default_connection web (build 7) "production") table
          ⊎ Taken (wanted default_connection web (build 7) "production") table))
    ⊎ ((made : Deployment × Draft) × (prepare_standalone
            (upstream client)
            site
            shop
            web
            (build 7)
            "production"
            none
            0
            table
          ≡ ok made)
        × Added (wanted default_connection web (build 7) "production") table table made)
prepare_standalone-Decides_example =
    prepare_standalone-Decides (upstream client) site shop web (build 7) "production" none 0 table
      default_connection web-connection (λ e. cc) (λ e. cc)

create_bundle-Shape_example :
    Whenever
      (λ (r : Creation). Shape r.steps r.context)
      (create_bundle (upstream client) site request none free_hand 0 table)
create_bundle-Shape_example =
    create_bundle-Shape (upstream client) site request none free_hand 0 table

abbrev components_of : List Deployment → List String
components_of [] = []
components_of (d ∷ ds) = d.component ∷ components_of ds

abbrev written : Outcome CreationError Creation → List String
written (ok r) = components_of r.rows
written (err e) = []

bundle_in_order :
    written (create_bundle (upstream client) site request none free_hand 0 table)
    ≡ "backend" ∷ "backend" ∷ "frontend" ∷ []
unfolding create_bundle prepare_bundle project_of default_project selected_components select_all
    requested for_key validate_and_write validate_all insert_selected validate_one
    validate_promotable is_promotable assert_not_duplicate drone_connection resolve_connection
    write_bundle create_all create flush insert_row new_deployment same_slot repository_of get_build
    note_stage new_bundle unarchived
bundle_in_order = refl

selected_components-Fits_example :
    Whenever (Fits (requested request)) (selected_components shop request)
selected_components-Fits_example = selected_components-Fits shop request
