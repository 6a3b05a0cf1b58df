-- ===== src/Schedule.antt =====
-- Scheduled deployments: the rows (app/db/models/scheduling.py,
-- app/domain/scheduling/value_objects/schedule_status.py), and what a runner asks of the release
-- orchestrator.
pub mod Runner
pub mod Upkeep
pub mod Claims
pub mod Overrun
pub mod Order
pub mod Resumption
pub mod Once
pub mod Table
pub mod Fair
mod Examples
use release_controller.Prelude.{ℕ, String, Bool, true, false, Option, List}
use release_controller.Deployment.{Text}

pub data ScheduleStatus : Type 0 where
  pending running succeeded failed cancelled : ScheduleStatus

abbrev pub is_pending : ScheduleStatus → Bool
is_pending ScheduleStatus.pending = true
is_pending _ = false

abbrev pub is_claimed : ScheduleStatus → Bool
is_claimed ScheduleStatus.running = true
is_claimed _ = false

-- A row of schedule_component_builds.
pub record ComponentBuild : Type 0 where
  pub component_id : String
  pub component_key : String
  pub build_number : ℕ

-- A row of deployment_schedules with its children. Instants are natural numbers. The notice to the
-- recipients, the texts for the release and the attachment are left out.
pub record DeploymentSchedule : Type 0 where
  pub id : String
  pub project_id : Option String
  pub mode : String
  pub component_builds : List ComponentBuild
  pub frontend_build_number : Option ℕ
  pub backend_build_number : Option ℕ
  pub target : String
  pub scheduled_for_utc : ℕ
  pub status : ScheduleStatus
  pub requested_by : Option String
  pub deployment_id : Option String
  pub release_bundle_id : Option String
  pub error_message : Option Text
  pub created_at : ℕ
  pub updated_at : ℕ
  pub started_at : Option ℕ
  pub finished_at : Option ℕ

-- What a runner hands to the orchestrator: a bundle of components with their builds, or one.
pub data Launch : Type 0 where
  bundle_launch :
      (project_id : Option String) (components : List (String × ℕ)) (target : String)
      (requested_by : Option String)
      → Launch
  standalone_launch :
      (project_id : Option String) (key : String) (build_number : ℕ) (target : String)
      (requested_by : Option String)
      → Launch

-- What a runner has from elsewhere. A question carries the number of questions before it. The
-- orchestrator answers with the id of the bundle or of the deployment, or raises.
pub record Launcher : Type 0 where
  pub clock : ℕ → ℕ
  pub orchestrator : ℕ → Launch → Option String
  -- `scheduler_batch_size`
  pub batch_size : ℕ
