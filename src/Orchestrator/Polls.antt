-- ===== src/Orchestrator/Polls.antt =====
-- `refresh` of app/usecase/orchestration/_promotion.py with the transitions of
-- app/domain/orchestration/entities/deployment.py, over the gateway of
-- app/infrastructure/upstream/build_gateway.py. The words of an exception are a parameter.
use release_controller.Prelude.{
  ℕ, suc, ◌+◌, String, Option, none, some, [], ◌∷◌, str_eq, if◌then◌else◌, or_else, Outcome, ok,
  err,
}
use release_controller.Workflow.{
  deploying, success, failed, BundleStatus, WorkflowStage, wait_stage, stage_started,
  stage_succeeded, stage_failed, promotion_created, promotion_reconciled, upstream_unavailable,
  upstream_recovered,
}
use release_controller.Registry.{ProjectComponent}
use release_controller.Drone.{DroneBuild, CallError, code_of}
use release_controller.Drone.Builds
use release_controller.Drone.Builds.{Answer}
use release_controller.Deployment.{lit, num, Text, ReleaseBundle, Session, Upstream, is_terminal}
use release_controller.Deployment.Events.{tick, emit}
use release_controller.Deployment.Lifecycle.{active_stage}
use release_controller.Deployment.Polling.{is_new_condition, timed_out}
use release_controller.Deployment.Promotion.{PromoteError, component_not_registered}
use release_controller.Deployment.Refreshing.{is_running, note_status}

-- `UpstreamUnavailable`: a code and a message.
abbrev pub Unavailable : Type 0
Unavailable = String × Text

abbrev mirrored : WorkflowStage → ℕ → Option ReleaseBundle → Option ReleaseBundle
mirrored stage now none = none
mirrored stage now (some b) = some (record b {
  status = BundleStatus.deploying;
  deployment_status = BundleStatus.deploying;
  current_stage = some stage;
  started_at = some (or_else b.started_at now);
  updated_at = now;
})

module _ (u : Upstream) (describe : CallError → Text) where
  -- `_unavailable`
  unfoldable pub classified : {A : Type 0} → Answer A → Outcome Unavailable A
  classified (ok a) = ok a
  classified (err e) = err (code_of e, describe e)

  -- `_fail`
  unfoldable pub end_failed : WorkflowStage → String → Text → Session → Session
  end_failed stage code message s =
      let now = u.clock s.ticks in
      emit u stage stage_failed (some code) (some message) (
        tick (record s {
          deployment = record s.deployment {
            status = failed;
            current_stage = none;
            failed_stage = some stage;
            error_code = some code;
            error_message = some message;
            failed_at = some now;
            finished_at = some now;
            updated_at = now;
          };
        }))

  -- `_succeed`
  unfoldable pub end_success : Session → Session
  end_success s =
      let now = u.clock s.ticks in
      emit u (active_stage s.deployment) stage_succeeded none none (
        tick (record s {
          deployment = record s.deployment {
            status = success;
            current_stage = none;
            finished_at = some now;
            updated_at = now;
          };
        }))

  -- `_record_poll_failure`
  unfoldable pub note_failure : WorkflowStage → Unavailable → Session → Session
  note_failure stage (code, message) s =
      let noted = tick (record s {
        deployment = record s.deployment {
          poll_error_code = some code;
          poll_error_message = some message;
          poll_failure_count = s.deployment.poll_failure_count + 1;
          updated_at = u.clock s.ticks;
        };
      }) in
      if is_new_condition s.deployment.poll_error_code code
      then emit u stage upstream_unavailable (some code) (some message) noted
      else noted

  abbrev pub back : WorkflowStage → Option String → Session → Session
  back stage none s = tick s
  back stage (some code) s =
      emit u stage upstream_recovered none
        (some (lit "Drone is reachable again after " ∷ lit code ∷ []))
        (tick (record s {
          deployment = record s.deployment {
            poll_error_code = none;
            poll_error_message = none;
            poll_failure_count = 0;
            updated_at = u.clock s.ticks;
          };
        }))

  -- `_clear_poll_failure`
  unfoldable pub note_recovery : WorkflowStage → Session → Session
  note_recovery stage s = back stage s.deployment.poll_error_code s

  -- `_record_promotion`
  unfoldable pub adopt : DroneBuild → WorkflowStage → Session → Session
  adopt promotion stage s =
      let now = u.clock s.ticks in
      let next = wait_stage s.deployment.component in
      emit u next stage_started none none (
        emit u stage promotion_created none
          (some (lit "Drone promotion build #" ∷ num promotion.number ∷ lit " created" ∷ []))
          (emit u stage stage_succeeded none none (
            tick (record s {
              deployment = record s.deployment {
                promotion_build_number = some promotion.number;
                status = deploying;
                current_stage = some next;
                updated_at = now;
              };
              release = mirrored next now s.release;
            }))))

  -- `_reconcile`, after the answer
  unfoldable pub on_search :
      WorkflowStage → Outcome Unavailable (Option DroneBuild) → Session → Session
  on_search stage (err e) s = note_failure stage e s
  on_search stage (ok none) s =
      note_failure stage
        ("DRONE_PROMOTE_UNCONFIRMED", lit "No promotion build found for this deployment yet" ∷ []) s
  on_search stage (ok (some promotion)) s = adopt promotion stage (
      emit u stage promotion_reconciled none
        (some (
          lit "Adopted existing Drone promotion build #"
          ∷ num promotion.number
          ∷ lit " instead of creating a second one"
          ∷ []))
        (note_recovery stage s))

  -- What the status of the build makes of the deployment; it is in lower case.
  unfoldable pub conclude : DroneBuild → String → WorkflowStage → Session → Session
  conclude build status stage s =
      if is_running status
      then tick (record s {
        deployment = record s.deployment { status = deploying; updated_at = u.clock s.ticks };
      })
      else if str_eq status "success"
      then end_success s
      else end_failed stage
          (if str_eq status "killed" then "DRONE_BUILD_KILLED" else "DRONE_BUILD_FAILED")
          (lit "Drone promotion build #" ∷ num build.number ∷ lit " " ∷ lit status ∷ []) s

  unfoldable pub on_poll : WorkflowStage → Outcome Unavailable DroneBuild → Session → Session
  on_poll stage (err e) s = note_failure stage e s
  on_poll stage (ok build) s =
      let status = u.lower build.status in
      conclude build status stage (note_status u build status stage (note_recovery stage s))

  abbrev Raising : Type 0
  Raising = Outcome PromoteError (Unit {0}) × Session

  -- With the component, which is looked up outside of the `try`.
  unfoldable pub ask_drone : Option ProjectComponent → WorkflowStage → Option ℕ → Session → Raising
  ask_drone none stage number s = (err component_not_registered, s)
  ask_drone (some c) stage none s =
      let d = s.deployment in
      let answer =
        Builds.find_promotion_build u.client (suc s.ticks) c d.source_build_number d.target in
      (ok tt, on_search stage (classified answer) (tick (tick s)))
  ask_drone (some c) stage (some number) s = (
    ok tt,
    on_poll stage (classified (Builds.get_build u.client (suc s.ticks) c number)) (tick (tick s)),
  )

  unfoldable pub refresh_in_flight : Session → Raising
  refresh_in_flight s =
      let stage = active_stage s.deployment in
      if timed_out u s
      then (
        ok tt,
        end_failed stage "WORKFLOW_TIMEOUT"
            (lit "Deployment exceeded the configured workflow timeout" ∷ []) (tick s),
      )
      else ask_drone (u.component_row (suc s.ticks) s.deployment.component_id) stage
          s.deployment.promotion_build_number (tick s)

  unfoldable pub refresh_deployment : Session → Raising
  refresh_deployment s = if is_terminal s.deployment then (ok tt, s) else refresh_in_flight s
