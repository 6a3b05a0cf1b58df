-- ===== src/Creation/Insert.antt =====
-- `assert_not_duplicate` and `create` of app/services/deployment_service.py over the table of
-- deployments with its unique index (app/db/models/orchestration.py:
-- `uq_deployments_active_promotion`).
use release_controller.Prelude.{
  ℕ, suc, String, Bool, true, false, ◌&&◌, Option, none, some, List, [], ◌∷◌, ◌++◌, if◌then◌else◌,
  Outcome, ok, err, ◌>>=◌,
}
use release_controller.Workflow.{waiting}
use release_controller.Registry.{ProjectComponent}
use release_controller.Drone.{DroneBuild, CallError}
use release_controller.Drone.Builds.{repository_of}
use release_controller.Deployment.{Deployment, ReleaseBundle, Upstream}
use release_controller.Deployment.Slots.{occupies, slot_of, is_taken}
use release_controller.Deployment.Events.{opt_map}
use release_controller.Creation.{
  ProjectRow, Connection, CreationError, build_failed, duplicate_promotion, Site, Draft,
}
use release_controller.Creation.Lookup.{drone_connection}

-- The INSERT, which the index refuses if the new row is active in a slot that is taken.
unfoldable pub insert_row : Deployment → List Deployment → Outcome CreationError (List Deployment)
insert_row d rows =
    if occupies d.status && is_taken (slot_of d) rows
    then err duplicate_promotion
    else ok (rows ++ d ∷ [])

abbrev pub lifted : {A : Type 0} → Outcome CallError A → Outcome CreationError A
lifted (ok a) = ok a
lifted (err e) = err (build_failed e)

abbrev refused_if : Bool → Outcome CreationError (Unit {0})
refused_if true = err duplicate_promotion
refused_if false = ok tt

unfoldable pub assert_not_duplicate :
    Site
    → ProjectRow
    → ProjectComponent
    → ℕ
    → String
    → List Deployment
    → Outcome CreationError (Unit {0})
assert_not_duplicate site project c build_number target rows = do
  connection ← drone_connection site.connections project c
  refused_if (
      is_taken
        (record {
          drone_connection_id = connection.id;
          drone_owner = c.drone_owner;
          drone_repository = c.drone_repo;
          source_build_number = build_number;
          target = target;
        })
        rows)

-- A deployment of a component that is to be promoted.
pub record Plan : Type 0 where
  pub component : ProjectComponent
  pub build : DroneBuild
  pub target : String
  pub bundle : Option ReleaseBundle
  pub requested_by : Option String

abbrev instance_in : Option ReleaseBundle → Option String
instance_in none = none
instance_in (some b) = b.workflow_instance_id

module _ (u : Upstream) (site : Site) where
  unfoldable pub new_deployment : ℕ → Connection → String × String → Plan → Deployment
  new_deployment k connection (owner, name) plan = record {
    id = site.new_id k;
    release_bundle_id = opt_map (λ (b : ReleaseBundle). b.id) plan.bundle;
    bundle_instance = instance_in plan.bundle;
    project_id = plan.component.project_id;
    component_id = plan.component.id;
    component = plan.component.key;
    drone_connection_id = connection.id;
    drone_owner = owner;
    drone_repository = name;
    source_build_number = plan.build.number;
    promotion_build_number = none;
    required_promotion_stages = site.policy plan.component.id plan.target;
    commit_sha = plan.build.commit_sha;
    branch = plan.build.branch;
    target = plan.target;
    status = waiting;
    current_stage = none;
    failed_stage = none;
    error_code = none;
    error_message = none;
    cancel_reason = none;
    poll_error_code = none;
    poll_error_message = none;
    poll_failure_count = 0;
    requested_by = plan.requested_by;
    created_at = u.clock k;
    updated_at = u.clock (suc k);
    started_at = none;
    failed_at = none;
    cancelled_at = none;
    finished_at = none;
  }

-- The flush of a new deployment: it, and the draft with its row.
unfoldable pub flush : Deployment → Draft → Outcome CreationError (Deployment × Draft)
flush d draft = do
  rows ← insert_row d draft.rows
  ok (d, record draft { rows = rows; made = draft.made ++ d ∷ []; ticks = suc (suc draft.ticks) })

module _ (u : Upstream) (site : Site) where
  -- `DeploymentService.create`
  unfoldable pub create : ProjectRow → Plan → Draft → Outcome CreationError (Deployment × Draft)
  create project plan draft = do
    repo ← lifted (repository_of plan.component)
    connection ← drone_connection site.connections project plan.component
    flush (new_deployment u site draft.ticks connection repo plan) draft
