-- ===== src/Deployment/Lifecycle.antt =====
-- The writes of app/services/deployment_service.py that end or restart a deployment.
use release_controller.Prelude.{String, Option, none, some, [], ◌∷◌, or_else, str_eq, if◌then◌else◌}
use release_controller.Workflow.{
  waiting, success, failed, cancelled, WorkflowStage, promote_stage, wait_stage, stage_succeeded,
  stage_failed, deployment_cancelled, deployment_retried, deployment_value,
}
use release_controller.Deployment.{lit, Text, Deployment, Session, Upstream}
use release_controller.Deployment.Events.{tick, emit}

-- `deployment.current_stage or wait_stage(...)`; no stage is the empty string.
abbrev pub active_stage : Deployment → WorkflowStage
active_stage d = or_else d.current_stage (wait_stage d.component)

-- `" (previous error)"`, if there was one.
abbrev in_parentheses : Option String → Text
in_parentheses none = []
in_parentheses (some code) = if str_eq code "" then [] else lit " (" ∷ lit code ∷ lit ")" ∷ []

abbrev retry_message : Deployment → Text
retry_message d =
    lit "Retrying after " ∷ lit (deployment_value d.status) ∷ in_parentheses d.error_code

module _ (u : Upstream) where
  unfoldable pub succeed : Session → Session
  succeed s =
      let now = u.clock s.ticks in
      let stage = active_stage s.deployment in
      emit u stage stage_succeeded none none (
        tick (record s {
          deployment = record s.deployment {
            status = success;
            current_stage = none;
            finished_at = some now;
            updated_at = now;
          };
        }))

  unfoldable pub fail : WorkflowStage → String → Text → Session → Session
  fail failed_stage error_code error_message s =
      let now = u.clock s.ticks in
      emit u failed_stage stage_failed (some error_code) (some error_message) (
        tick (record s {
          deployment = record s.deployment {
            status = failed;
            current_stage = none;
            failed_stage = some failed_stage;
            error_code = some error_code;
            error_message = some error_message;
            failed_at = some now;
            finished_at = some now;
            updated_at = now;
          };
        }))

  unfoldable pub cancel : Text → Session → Session
  cancel reason s =
      let now = u.clock s.ticks in
      emit u (promote_stage s.deployment.component) deployment_cancelled none (some reason) (
        tick (record s {
          deployment = record s.deployment {
            status = cancelled;
            current_stage = none;
            cancel_reason = some reason;
            cancelled_at = some now;
            finished_at = some now;
            updated_at = now;
          };
        }))

  unfoldable pub reset_for_retry : Session → Session
  reset_for_retry s =
      let now = u.clock s.ticks in
      emit u (promote_stage s.deployment.component) deployment_retried none
        (some (retry_message s.deployment))
        (tick (record s {
          deployment = record s.deployment {
            status = waiting;
            current_stage = none;
            promotion_build_number = none;
            failed_stage = none;
            error_code = none;
            error_message = none;
            cancel_reason = none;
            cancelled_at = none;
            failed_at = none;
            finished_at = none;
            poll_error_code = none;
            poll_error_message = none;
            poll_failure_count = 0;
            started_at = none;
            updated_at = now;
          };
        }))
