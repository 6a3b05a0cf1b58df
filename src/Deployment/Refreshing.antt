-- ===== src/Deployment/Refreshing.antt =====
-- One poll of a deployment (app/services/deployment_service.py: `refresh`, `_reconcile_promotion`).
use release_controller.Prelude.{
  ℕ, suc, String, Bool, true, false, not, ◌&&◌, ◌||◌, Option, none, some, [], ◌∷◌, str_eq,
  if◌then◌else◌, ok, err,
}
use release_controller.Workflow.{
  deploying, WorkflowStage, promotion_reconciled, drone_status_changed,
}
use release_controller.Registry.{ProjectComponent}
use release_controller.Drone.{DroneBuild, other, code_of, is_promotion_of, stages_succeeded}
use release_controller.Drone.Builds
use release_controller.Drone.Builds.{Answer}
use release_controller.Deployment.{lit, num, Text, Deployment, Session, Upstream, is_terminal}
use release_controller.Deployment.Events.{tick, new_event}
use release_controller.Deployment.Events
use release_controller.Deployment.Lifecycle.{active_stage, succeed, fail}
use release_controller.Deployment.Polling.{record_poll_failure, clear_poll_failure, timed_out}
use release_controller.Deployment.Promotion.{record_promotion}

abbrev adopted_message : ℕ → Text
adopted_message number =
    lit "Adopted existing Drone promotion build #"
    ∷ num number
    ∷ lit " instead of creating a second one"
    ∷ []

-- `status in {"pending", "running", "blocked"}`
abbrev pub is_running : String → Bool
is_running status = str_eq status "pending" || str_eq status "running" || str_eq status "blocked"

-- The check of the stages that the CI policy requires, if there is one.
unfoldable pub stages_rejected : Deployment → DroneBuild → Bool
stages_rejected d build = elim d.required_promotion_stages [
  | none ↦ false
  | some stages ↦ not (
      is_promotion_of build d.source_build_number d.target
      && str_eq build.commit_sha d.commit_sha
      && stages_succeeded build stages true)
]

module _ (u : Upstream) where
  -- `self.registry.for_deployment(deployment)` inside a `try`, and the call on it. Each counts as a
  -- question.
  abbrev pub ask : {A : Type 0} → (ℕ → ProjectComponent → Answer A) → Session → Answer A
  ask call s = elim (u.component_row s.ticks s.deployment.component_id) [
    | none ↦ err other
    | some c ↦ call (suc s.ticks) c
  ]

  unfoldable pub on_found : WorkflowStage → Answer (Option DroneBuild) → Session → Session
  on_found stage (err e) s = record_poll_failure u stage (code_of e) s
  on_found stage (ok none) s = record_poll_failure u stage "DRONE_PROMOTE_UNCONFIRMED" s
  on_found stage (ok (some promotion)) s = record_promotion u promotion stage (
      Events.emit u stage promotion_reconciled none (some (adopted_message promotion.number))
        (clear_poll_failure u stage s))

  unfoldable pub reconcile_promotion : WorkflowStage → Session → Session
  reconcile_promotion stage s =
      let d = s.deployment in
      let find = λ (n : ℕ) (c : ProjectComponent).
        Builds.find_promotion_build u.client n c d.source_build_number d.target in
      on_found stage (ask find s) (tick (tick s))

  -- Drone's verdict on the promotion build; `status` is in lower case.
  unfoldable pub judge : DroneBuild → String → WorkflowStage → Session → Session
  judge build status stage s =
      if is_running status
      then tick (record s {
        deployment = record s.deployment { status = deploying; updated_at = u.clock s.ticks };
      })
      else if str_eq status "success"
      then if stages_rejected s.deployment build
        then fail u stage "PROMOTION_STAGES_REJECTED"
            (lit "Required deployment stages did not execute successfully" ∷ []) s
        else succeed u s
      else fail u stage
          (if str_eq status "killed" then "DRONE_BUILD_KILLED" else "DRONE_BUILD_FAILED")
          (lit "Drone promotion build #" ∷ num build.number ∷ lit " " ∷ lit status ∷ []) s

  -- The event of a poll carries the build's status instead of the deployment's.
  unfoldable pub note_status : DroneBuild → String → WorkflowStage → Session → Session
  note_status build status stage s = record s {
    events =
        new_event u s.release (some s.deployment) stage drone_status_changed (some status) none
          (some (lit "Drone promotion build #" ∷ num build.number ∷ lit " is " ∷ lit status ∷ []))
        ∷ s.events;
  }

  unfoldable pub on_build : WorkflowStage → Answer DroneBuild → Session → Session
  on_build stage (err e) s = record_poll_failure u stage (code_of e) s
  on_build stage (ok build) s =
      let status = u.lower build.status in
      judge build status stage (note_status build status stage (clear_poll_failure u stage s))

  -- `self.builds.get_build(...)` of a poll.
  unfoldable pub asked_build : ℕ → Session → Answer DroneBuild
  asked_build number s =
      let get = λ (n : ℕ) (c : ProjectComponent). Builds.get_build u.client n c number in ask get s

  unfoldable pub poll : WorkflowStage → ℕ → Session → Session
  poll stage number s = on_build stage (asked_build number s) (tick (tick s))

  unfoldable pub look_up : WorkflowStage → Option ℕ → Session → Session
  look_up stage none s = reconcile_promotion stage s
  look_up stage (some number) s = poll stage number s

  -- `refresh` of a deployment that has not ended.
  unfoldable pub refresh_running : Session → Session
  refresh_running s =
      let stage = active_stage s.deployment in
      if timed_out u s
      then fail u stage "WORKFLOW_TIMEOUT"
          (lit "Deployment exceeded the configured workflow timeout" ∷ []) (tick s)
      else look_up stage s.deployment.promotion_build_number (tick s)

  unfoldable pub refresh : Session → Session
  refresh s = if is_terminal s.deployment then s else refresh_running s
