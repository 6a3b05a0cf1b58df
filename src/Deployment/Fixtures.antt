-- ===== src/Deployment/Fixtures.antt =====
-- Concrete rows and a concrete world for the examples.
use release_controller.Prelude.{ℕ, String, true, none, some, [], ok, err, ◌+◌}
use release_controller.Workflow.{
  waiting, deploying, BundleStatus, PublishStatus, wait_backend_deployment,
}
use release_controller.Drone.Fixtures.{api}
use release_controller.Drone.{DroneBuild, drone, timeout_error}
use release_controller.Drone.Builds.{DroneClient}
use release_controller.Deployment.{Deployment, ReleaseBundle, Session, Upstream, plan_holds}

abbrev pub build : ℕ → DroneBuild
build number = record {
  number = number;
  status = "success";
  event = "promote";
  parent = some 7;
  target = some "production";
  branch = "main";
  commit_sha = "abc";
  stages = [];
}

-- Drone promotes at once, and every build has succeeded.
abbrev pub prompt : DroneClient
prompt = record {
  list_builds = λ call c owner name limit. ok [];
  get_build = λ call c owner name number. ok (build number);
  promote_build = λ call c owner name number target. ok (build (number + 1));
}

-- Drone does not answer in time.
abbrev pub silent : DroneClient
silent = record {
  list_builds = λ call c owner name limit. err (drone timeout_error);
  get_build = λ call c owner name number. err (drone timeout_error);
  promote_build = λ call c owner name number target. err (drone timeout_error);
}

abbrev pub upstream : DroneClient → Upstream
upstream client = record {
  clock = λ n. n;
  timeout = 3600;
  lower = λ s. s;
  actor = "ann";
  actor_source = "API";
  component_row = λ n id. some api;
  client = client;
  ci_dispatch_allowed = λ n d c. true;
  verify_planned_deployment = λ n d c. plan_holds;
}

abbrev pub fresh : String → Deployment
fresh id = record {
  id = id;
  release_bundle_id = some "b1";
  bundle_instance = none;
  project_id = "p1";
  component_id = "c1";
  component = "backend";
  drone_connection_id = "d1";
  drone_owner = "acme";
  drone_repository = "api";
  source_build_number = 7;
  promotion_build_number = none;
  required_promotion_stages = none;
  commit_sha = "abc";
  branch = "main";
  target = "production";
  status = waiting;
  current_stage = none;
  failed_stage = none;
  error_code = none;
  error_message = none;
  cancel_reason = none;
  poll_error_code = none;
  poll_error_message = none;
  poll_failure_count = 0;
  requested_by = some "ann";
  created_at = 0;
  updated_at = 0;
  started_at = none;
  failed_at = none;
  cancelled_at = none;
  finished_at = none;
}

abbrev pub running : String → Deployment
running id = record (fresh id) {
  status = deploying;
  current_stage = some wait_backend_deployment;
  promotion_build_number = some 8;
  started_at = some 0;
}

abbrev pub bundle : ReleaseBundle
bundle = record {
  id = "b1";
  project_id = some "p1";
  selected_component_keys = none;
  target = "production";
  status = BundleStatus.deploying;
  deployment_status = BundleStatus.deploying;
  publish_status = PublishStatus.not_published;
  workflow_instance_id = none;
  current_stage = some wait_backend_deployment;
  failed_stage = none;
  error_code = none;
  error_message = none;
  requested_by = some "ann";
  created_at = 0;
  updated_at = 0;
  started_at = some 0;
  failed_at = none;
  finished_at = none;
}

abbrev pub at : Deployment → Session
at d = record { deployment = d; row = d; release = some bundle; events = []; sent = []; ticks = 0 }
