-- ===== src/Deployment.antt =====
-- The rows that the orchestration works on (app/db/models/orchestration.py), and one database
-- session at work on one of them.
pub mod Events
pub mod Lifecycle
pub mod Polling
pub mod Promotion
pub mod Refreshing
pub mod Invariant
pub mod Sound
pub mod Quiet
pub mod Sending
pub mod Claims
pub mod Attempts
pub mod Outcomes
pub mod Outages
pub mod Slots
pub mod Fixtures
mod Examples
use release_controller.Prelude.{
  ℕ, String, Bool, true, false, Option, none, some, List, ◌||◌, ◌==◌, ◌≡◌,
}
use release_controller.Workflow.{
  DeploymentStatus, waiting, promoting, deploying, success, failed, cancelled, BundleStatus,
  PublishStatus, WorkflowStage, WorkflowEventType,
}
use release_controller.Registry.{ProjectComponent}
use release_controller.Drone.{DroneError}
use release_controller.Drone.Builds.{DroneClient}

-- A text is kept as the pieces of its format string: literal words, decimal numbers, words in the
-- quotes of `repr`, and words that
-- `str.capitalize` is applied to.
pub data Fragment : Type 0 where
  lit capitalized quoted : String → Fragment
  num : ℕ → Fragment

abbrev pub Text : Type 0
Text = List Fragment

-- A row of deployments. Instants are natural numbers. The columns of the publish and of the
-- attachment are not touched here. `bundle_instance` is `release_bundle.workflow_instance_id`.
pub record Deployment : Type 0 where
  pub id : String
  pub release_bundle_id : Option String
  pub bundle_instance : Option String
  pub project_id : String
  pub component_id : String
  pub component : String
  pub drone_connection_id : String
  pub drone_owner : String
  pub drone_repository : String
  pub source_build_number : ℕ
  pub promotion_build_number : Option ℕ
  pub required_promotion_stages : Option (List String)
  pub commit_sha : String
  pub branch : String
  pub target : String
  pub status : DeploymentStatus
  pub current_stage : Option WorkflowStage
  pub failed_stage : Option WorkflowStage
  pub error_code : Option String
  pub error_message : Option Text
  pub cancel_reason : Option Text
  pub poll_error_code : Option String
  pub poll_error_message : Option Text
  pub poll_failure_count : ℕ
  pub requested_by : Option String
  pub created_at : ℕ
  pub updated_at : ℕ
  pub started_at : Option ℕ
  pub failed_at : Option ℕ
  pub cancelled_at : Option ℕ
  pub finished_at : Option ℕ

-- A row of release_bundles, with the same omissions.
pub record ReleaseBundle : Type 0 where
  pub id : String
  pub project_id : Option String
  pub selected_component_keys : Option String
  pub target : String
  pub status : BundleStatus
  pub deployment_status : BundleStatus
  pub publish_status : PublishStatus
  pub workflow_instance_id : Option String
  pub current_stage : Option WorkflowStage
  pub failed_stage : Option WorkflowStage
  pub error_code : Option String
  pub error_message : Option Text
  pub requested_by : Option String
  pub created_at : ℕ
  pub updated_at : ℕ
  pub started_at : Option ℕ
  pub failed_at : Option ℕ
  pub finished_at : Option ℕ

-- A row of workflow_events.
pub record WorkflowEvent : Type 0 where
  pub release_bundle_id : Option String
  pub deployment_id : Option String
  pub workflow_instance_id : Option String
  pub stage : WorkflowStage
  pub event_type : WorkflowEventType
  pub status : Option String
  pub error_code : Option String
  pub message : Option Text
  pub actor : String
  pub actor_source : String
  pub component : Option String
  pub target : Option String

-- A promotion handed to the client.
pub record Sent : Type 0 where
  pub deployment_id : String
  pub owner : String
  pub name : String
  pub build : ℕ
  pub target : String

-- One session at work: the loaded object, the row of the database under it, the loaded bundle, the
-- events and the promotions sent, the latest first, and the number of questions that were put to
-- the clock, the registry and Drone.
pub record Session : Type 0 where
  pub deployment : Deployment
  pub row : Deployment
  pub release : Option ReleaseBundle
  pub events : List WorkflowEvent
  pub sent : List Sent
  pub ticks : ℕ

-- What `verify_planned_deployment` does: it returns, raises one of the two errors that say that the
-- approved plan has changed, or raises another one.
pub data PlanCheck : Type 0 where
  plan_holds plan_changed plan_crashed : PlanCheck
  plan_refused : DroneError → PlanCheck

-- What a session asks of the rest of the program and of the world. A question carries the number of
-- questions before it, so that the same one may be answered differently later.
pub record Upstream : Type 0 where
  pub clock : ℕ → ℕ
  -- `deployment_timeout_seconds`, in the unit of the clock
  pub timeout : ℕ
  -- `str.lower`
  pub lower : String → String
  pub actor : String
  pub actor_source : String
  -- `db.get(ProjectComponent, id)`
  pub component_row : ℕ → String → Option ProjectComponent
  pub client : DroneClient
  pub ci_dispatch_allowed : ℕ → Deployment → ProjectComponent → Bool
  pub verify_planned_deployment : ℕ → Deployment → ProjectComponent → PlanCheck

-- The members in the order of the enum, to compare them.
abbrev pub rank : DeploymentStatus → ℕ
rank waiting = 0
rank promoting = 1
rank deploying = 2
rank success = 3
rank failed = 4
rank cancelled = 5

abbrev pub has_status : Deployment → DeploymentStatus → Bool
has_status d status = rank d.status == rank status

-- `status in TERMINAL_DEPLOYMENT_STATUSES`
abbrev pub is_terminal : Deployment → Bool
is_terminal d = has_status d success || has_status d failed || has_status d cancelled

abbrev pub in_flight : Deployment → Bool
in_flight d = has_status d promoting || has_status d deploying

-- Whether the bundle, if there is one, can still be driven forward by `refresh_bundle`.
abbrev pub is_settled : BundleStatus → Bool
is_settled BundleStatus.success = true
is_settled BundleStatus.failed = true
is_settled BundleStatus.partial_failure = true
is_settled _ = false

abbrev pub IsOpen : Option ReleaseBundle → Type 0
IsOpen none = Unit
IsOpen (some b) = is_settled b.status ≡ false
