-- ===== src/Drone/Fixtures.antt =====
-- A concrete component for the examples.
use release_controller.Prelude.{none, some, true, false}
use release_controller.Registry.{ProjectComponent}

abbrev pub api : ProjectComponent
api = record {
  id = "c1";
  project_id = "p1";
  key = "backend";
  display_name = "API";
  position = 1;
  promote_target_override = none;
  drone_connection_id = some "d1";
  drone_owner = "acme";
  drone_repo = "api";
  publish_enabled = false;
  gitea_connection_id = none;
  gitea_owner = none;
  gitea_repo = none;
  tag_prefix = "v";
  is_active = true;
  created_at = 1;
  updated_at = 1;
}
