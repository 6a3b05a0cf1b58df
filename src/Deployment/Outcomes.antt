-- ===== src/Deployment/Outcomes.antt =====
-- Why a poll ends a deployment (app/services/deployment_service.py, `refresh`).
use release_controller.Prelude.{
  String, true, false, Option, none, some, ◌≡◌, refl, arith, str_eq, ok, err, if-both, ℕ,
}
use release_controller.Workflow.{success, failed, WorkflowStage}
use release_controller.Drone.{DroneBuild}
use release_controller.Drone.Builds.{Answer}
use release_controller.Deployment.{Text, Session, Upstream, has_status, is_terminal, Deployment}
use release_controller.Deployment.Events.{tick}
use release_controller.Deployment.Lifecycle.{succeed, fail}
use release_controller.Deployment.Polling.{
  record_poll_failure, clear_poll_failure, recovered, timed_out,
}
use release_controller.Deployment.Promotion.{record_promotion}
use release_controller.Deployment.Refreshing.{
  is_running, stages_rejected, judge, note_status, on_build, on_found, look_up, poll, asked_build,
  reconcile_promotion, refresh_running, refresh,
}

-- Not ended yet.
abbrev Alive : Session → Type 0
Alive s = is_terminal s.deployment ≡ false

-- What Drone's word on the promotion build, in lower case, makes of a deployment.
abbrev Rejected : Deployment → DroneBuild → String → Type 0
Rejected d build status =
    (is_running status ≡ false) × (str_eq status "success" ≡ true → stages_rejected d build ≡ true)

abbrev Accepted : Deployment → DroneBuild → String → Type 0
Accepted d build status = (str_eq status "success" ≡ true) × (stages_rejected d build ≡ false)

module _ (u : Upstream) where
  -- The ends that a look at the build may put to a deployment.
  pub data Ends (s : Session) (build : DroneBuild) (t : Session) : Type 0 where
    goes_on : is_terminal t.deployment ≡ false → Ends s build t
    lost :
        has_status t.deployment failed ≡ true
        → Rejected s.deployment build (u.lower build.status)
        → Ends s build t
    won :
        has_status t.deployment success ≡ true
        → Accepted s.deployment build (u.lower build.status)
        → Ends s build t

  fail-failed :
      (stage : WorkflowStage) (code : String) (message : Text) (s : Session)
      → has_status (fail u stage code message s).deployment failed ≡ true
  unfolding fail
  fail-failed stage code message s = refl

  succeed-success : (s : Session) → has_status (succeed u s).deployment success ≡ true
  unfolding succeed
  succeed-success s = refl

  judge-Ends :
      (build : DroneBuild) (stage : WorkflowStage) (s : Session)
      → Ends s build (judge u build (u.lower build.status) stage s)
  unfolding judge
  judge-Ends build stage s =
      let status = u.lower build.status in
      if-both (Ends s build) (is_running status) _ _ (λ _. goes_on refl)
        (λ r.
          if-both (Ends s build) (str_eq status "success") _ _
            (λ w.
              if-both (Ends s build) (stages_rejected s.deployment build) _ _
                (λ x. lost (fail-failed stage _ _ s) (r, λ _. x))
                (λ x. won (succeed-success s) (w, x)))
            (λ w. lost (fail-failed stage _ _ s) (r, λ y. absurd (cc))))

  clear_poll_failure-rejected :
      (build : DroneBuild) (stage : WorkflowStage) (s : Session)
      → stages_rejected (clear_poll_failure u stage s).deployment build
        ≡ stages_rejected s.deployment build
  unfolding clear_poll_failure stages_rejected
  clear_poll_failure-rejected build stage s =
      elim s.deployment.poll_error_code
        as (λ code.
          stages_rejected (recovered u stage code s).deployment build
          ≡ stages_rejected s.deployment build) [ none ↦ refl | some code ↦ refl ]

  Ends-from :
      (build : DroneBuild) (s s' t : Session)
      → stages_rejected s'.deployment build ≡ stages_rejected s.deployment build
      → Ends s' build t
      → Ends s build t
  Ends-from build s s' t e (goes_on h) = goes_on h
  Ends-from build s s' t e (lost h r) = lost h (r.0, λ w. ground arith)
  Ends-from build s s' t e (won h a) = won h (a.0, ground arith)

  -- How a poll of a deployment that has not ended can come out.
  pub data Poll (s t : Session) : Type 0 where
    runs : is_terminal t.deployment ≡ false → Poll s t
    out_of_time : timed_out u s ≡ true → has_status t.deployment failed ≡ true → Poll s t
    told :
        (number : ℕ) (build : DroneBuild)
        → s.deployment.promotion_build_number ≡ some number
        → asked_build u number (tick s) ≡ ok build
        → Ends s build t
        → Poll s t

  record_poll_failure-Alive :
      (stage : WorkflowStage) (code : String) (s : Session)
      → Alive s
      → Alive (record_poll_failure u stage code s)
  unfolding record_poll_failure
  record_poll_failure-Alive stage code s a = ground arith

  record_promotion-Alive :
      (stage : WorkflowStage) (b : DroneBuild) (s : Session) → Alive (record_promotion u b stage s)
  unfolding record_promotion
  record_promotion-Alive stage b s = refl

  on_found-Alive :
      (stage : WorkflowStage) (answer : Answer (Option DroneBuild)) (s : Session)
      → Alive s
      → Alive (on_found u stage answer s)
  unfolding on_found
  on_found-Alive stage (err e) s a = record_poll_failure-Alive stage _ s a
  on_found-Alive stage (ok none) s a = record_poll_failure-Alive stage _ s a
  on_found-Alive stage (ok (some b)) s a = record_promotion-Alive stage b _

  on_build-Poll :
      (stage : WorkflowStage) (number : ℕ) (answer : Answer DroneBuild) (s : Session)
      → Alive s
      → s.deployment.promotion_build_number ≡ some number
      → asked_build u number (tick s) ≡ answer
      → Poll s (on_build u stage answer (tick (tick (tick s))))
  unfolding on_build note_status
  on_build-Poll stage number (err x) s a e f = runs (record_poll_failure-Alive stage _ _ a)
  on_build-Poll stage number (ok build) s a e f =
      let s' = tick (tick (tick s)) in
      told number build e f (
        Ends-from build s _ _ (clear_poll_failure-rejected build stage s')
          (judge-Ends build stage (note_status u build _ stage (clear_poll_failure u stage s'))))

  look_up-Poll :
      (stage : WorkflowStage) (number : Option ℕ) (s : Session)
      → Alive s
      → s.deployment.promotion_build_number ≡ number
      → Poll s (look_up u stage number (tick s))
  unfolding look_up poll reconcile_promotion
  look_up-Poll stage none s a e = runs (on_found-Alive stage _ _ a)
  look_up-Poll stage (some n) s a e = on_build-Poll stage n _ s a e refl

  -- If a deployment that has not ended is polled, it goes on, or it fails because its time is over, or
  -- Drone has answered for the very build on record: then it fails only if that build's status is
  -- neither a running one nor a success with all required stages, and it succeeds only if the status
  -- is such a success. With no answer, or no build on record, it goes on unless its time is over.
  pub refresh-Poll : (s : Session) → is_terminal s.deployment ≡ false → Poll s (refresh u s)
  unfolding refresh refresh_running
  refresh-Poll s a =
      if-both (Poll s) (is_terminal s.deployment) _ _ (λ e. absurd (cc))
        (λ _.
          if-both (Poll s) (timed_out u s) _ _
            (λ late. out_of_time late (fail-failed _ _ _ (tick s)))
            (λ _. look_up-Poll _ s.deployment.promotion_build_number s a refl))
