-- ===== src/Orchestrator.antt =====
-- app/services/release_orchestrator.py: a bundle is driven forward one step at a time. The steps are
-- the deployments of the bundle in the order of their components, which `_ordered` gives.
pub mod Advance
pub mod Operations
pub mod Frontier
pub mod Verdict
pub mod Progress
pub mod Retry
pub mod Restart
pub mod Standalone
pub mod Rounds
pub mod Agreement
pub mod Polls
pub mod Parity
mod Examples
use release_controller.Prelude.{
  ℕ, suc, String, Bool, true, false, ◌||◌, Option, none, some, List, [], ◌∷◌, ◌++◌, any, or_else,
  ◌==◌, if◌then◌else◌,
}
use release_controller.Workflow.{
  failed, waiting, success, BundleStatus, WorkflowStage, WorkflowEventType, complete_deployment,
  wait_publish_request, release_completed, stage_started, bundle_value,
}
use release_controller.Deployment.{
  lit, capitalized, Text, Deployment, ReleaseBundle, WorkflowEvent, Sent, Session, Upstream,
  has_status,
}
use release_controller.Deployment.Events.{new_event}
use release_controller.Deployment.Lifecycle.{cancel}

-- A deployment of the bundle: the loaded object, and the row under it.
pub record Step : Type 0 where
  pub deployment : Deployment
  pub row : Deployment

-- What the steps of a bundle share.
pub record Context : Type 0 where
  pub bundle : ReleaseBundle
  pub events : List WorkflowEvent
  pub sent : List Sent
  pub ticks : ℕ

abbrev pub session : Context → Step → Session
session c step = record {
  deployment = step.deployment;
  row = step.row;
  release = some c.bundle;
  events = c.events;
  sent = c.sent;
  ticks = c.ticks;
}

abbrev pub step_of : Session → Step
step_of s = record { deployment = s.deployment; row = s.row }

abbrev pub context_of : Context → Session → Context
context_of c s = record {
  bundle = or_else s.release c.bundle;
  events = s.events;
  sent = s.sent;
  ticks = s.ticks;
}

abbrev bundle_rank : BundleStatus → ℕ
bundle_rank BundleStatus.pending = 0
bundle_rank BundleStatus.promoting = 1
bundle_rank BundleStatus.deploying = 2
bundle_rank BundleStatus.success = 3
bundle_rank BundleStatus.failed = 4
bundle_rank BundleStatus.partial_failure = 5

abbrev pub same_bundle_status : BundleStatus → BundleStatus → Bool
same_bundle_status a b = bundle_rank a == bundle_rank b

abbrev pub succeeded : Step → Bool
succeeded step = has_status step.deployment success

abbrev pub has_failed : Step → Bool
has_failed step = has_status step.deployment failed

-- `f"{failed.component.capitalize()} deployment failed"`
abbrev cancellation_reason : Deployment → Text
cancellation_reason lost = capitalized lost.component ∷ lit " deployment failed" ∷ []

abbrev pub failure_status : List Step → BundleStatus
failure_status steps =
    if any succeeded steps then BundleStatus.partial_failure else BundleStatus.failed

module _ (u : Upstream) where
  -- An event of the bundle alone.
  abbrev pub emit_release :
      WorkflowStage → WorkflowEventType → Option String → Option Text → Context → Context
  emit_release stage event_type status message c = record c {
    events = new_event u (some c.bundle) none stage event_type status none message ∷ c.events;
  }

  -- One round of the loop of `_fail_bundle`.
  unfoldable pub cancel_waiting : Text → Context → Step → Step × Context
  cancel_waiting reason c step =
      if has_status step.deployment waiting
      then (let s = cancel u reason (session c step) in (step_of s, context_of c s))
      else (step, c)

  unfoldable pub cancel_all : Text → Context → List Step → List Step × Context
  cancel_all reason c [] = ([], c)
  cancel_all reason c (step ∷ steps) =
      let (step', c') = cancel_waiting reason c step in
      let (steps', c'') = cancel_all reason c' steps in (step' ∷ steps', c'')

  -- The writes of `_fail_bundle` on the bundle.
  unfoldable pub stop_bundle : Deployment → List Step → Context → Context
  stop_bundle lost steps c =
      let now = u.clock c.ticks in
      let status = failure_status steps in
      record c {
        bundle = record c.bundle {
          status = status;
          deployment_status = status;
          current_stage = none;
          failed_stage = lost.failed_stage;
          error_code = lost.error_code;
          error_message = lost.error_message;
          failed_at = some now;
          finished_at = some now;
          updated_at = now;
        };
        ticks = suc c.ticks;
      }

  unfoldable pub fail_bundle : Deployment → List Step → Context → List Step × Context
  fail_bundle lost steps c =
      let (steps', c') = cancel_all (cancellation_reason lost) c steps in
      (steps', stop_bundle lost steps' c')

  abbrev finished : Context → Context
  finished c =
      let now = u.clock c.ticks in
      record c {
        bundle = record c.bundle {
          status = BundleStatus.success;
          deployment_status = BundleStatus.success;
          current_stage = none;
          finished_at = some now;
          updated_at = now;
        };
        ticks = suc c.ticks;
      }

  unfoldable pub finish_success : Context → Context
  finish_success c =
      let status = some (bundle_value BundleStatus.success) in
      emit_release wait_publish_request stage_started status none
        (emit_release complete_deployment release_completed status none (finished c))
