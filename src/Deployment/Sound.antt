-- ===== src/Deployment/Sound.antt =====
-- The invariant of a deployment across the whole of `promote` and `refresh`.
use mathlib.Core.Path.{subst}
use release_controller.Prelude.{
  sym, ap, ◌∙◌, if-both, str_eq, ℕ, String, Bool, true, false, Option, none, some, ◌≡◌, refl, arith,
  ok, err,
}
use release_controller.Workflow.{waiting, deploying, WorkflowStage}
use release_controller.Registry.{ProjectComponent}
use release_controller.Drone.{error_code, drone, other, DroneBuild, DroneError}
use release_controller.Drone.Builds.{Answer}
use release_controller.Deployment.{
  PlanCheck, plan_holds, plan_changed, plan_refused, plan_crashed, Session, Upstream, has_status,
  in_flight, is_terminal,
}
use release_controller.Deployment.Events.{tick}
use release_controller.Deployment.Polling.{timed_out, record_poll_failure, clear_poll_failure}
use release_controller.Deployment.Promotion.{
  after_ci, with_component, after_claim, on_check, is_unconfirmed, on_promotion,
  claim_for_promotion, on_drone_error, sending, dispatch, promote,
}
use release_controller.Deployment.Refreshing.{
  stages_rejected, on_build, on_found, look_up, is_running, judge, note_status, poll,
  reconcile_promotion, refresh_running, refresh,
}
use release_controller.Deployment.Invariant.{
  IsSound, claim-IsSound, succeed-IsSound, fail-IsSound, record_poll_failure-IsSound,
  clear_poll_failure-IsSound, mark-IsSound, record_promotion-IsSound,
}

abbrev SoundObject : Session → Type 0
SoundObject s = IsSound s.deployment

module _ (u : Upstream) where
  pub clear_poll_failure-status :
      (stage : WorkflowStage) (s : Session)
      → (clear_poll_failure u stage s).deployment.status ≡ s.deployment.status
  unfolding clear_poll_failure
  clear_poll_failure-status stage s = ground arith

  pub record_poll_failure-status :
      (stage : WorkflowStage) (code : String) (s : Session)
      → (record_poll_failure u stage code s).deployment.status ≡ s.deployment.status
  unfolding record_poll_failure
  record_poll_failure-status stage code s = ground arith

  pub judge-IsSound :
      (build : DroneBuild) (status : String) (stage : WorkflowStage) (s : Session)
      → s.deployment.status ≡ deploying
      → IsSound s.deployment
      → IsSound (judge u build status stage s).deployment
  unfolding judge
  judge-IsSound build status stage s e h =
      let flying : in_flight s.deployment ≡ true = ground arith in
      if-both SoundObject (is_running status) _ _ (λ _. ground arith)
        (λ _.
          if-both SoundObject (str_eq status "success") _ _
            (λ _.
              if-both SoundObject (stages_rejected s.deployment build) _ _
                (λ _. fail-IsSound u stage _ _ s flying h) (λ _. succeed-IsSound u s e h))
            (λ _. fail-IsSound u stage _ _ s flying h))

  pub on_build-IsSound :
      (stage : WorkflowStage) (answer : Answer DroneBuild) (s : Session)
      → s.deployment.status ≡ deploying
      → IsSound s.deployment
      → IsSound (on_build u stage answer s).deployment
  unfolding on_build note_status
  on_build-IsSound stage (err x) s e h = record_poll_failure-IsSound u stage _ s h
  on_build-IsSound stage (ok build) s e h =
      judge-IsSound build _ stage _ (clear_poll_failure-status stage s ∙ e)
        (clear_poll_failure-IsSound u stage s h)

  pub on_found-IsSound :
      (stage : WorkflowStage) (answer : Answer (Option DroneBuild)) (s : Session)
      → in_flight s.deployment ≡ true
      → IsSound s.deployment
      → IsSound (on_found u stage answer s).deployment
  unfolding on_found
  on_found-IsSound stage (err x) s e h = record_poll_failure-IsSound u stage _ s h
  on_found-IsSound stage (ok none) s e h = record_poll_failure-IsSound u stage _ s h
  on_found-IsSound stage (ok (some b)) s e h =
      record_promotion-IsSound u b stage _ (ground (arith, clear_poll_failure-status stage s))
        (clear_poll_failure-IsSound u stage s h)

  look_up-IsSound :
      (stage : WorkflowStage) (number : Option ℕ) (s : Session)
      → s.deployment.promotion_build_number ≡ number
      → in_flight s.deployment ≡ true
      → IsSound s.deployment
      → IsSound (look_up u stage number (tick s)).deployment
  unfolding look_up poll reconcile_promotion
  look_up-IsSound stage none s e f h = on_found-IsSound stage _ _ f h
  look_up-IsSound stage (some number) s e f h =
      on_build-IsSound stage _ _ (ground (arith, h.build_known)) h

  refresh_running-IsSound :
      (s : Session)
      → in_flight s.deployment ≡ true
      → IsSound s.deployment
      → IsSound (refresh_running u s).deployment
  unfolding refresh_running
  refresh_running-IsSound s f h =
      if-both SoundObject (timed_out u s) _ _ (λ _. fail-IsSound u _ _ _ (tick s) f h)
        (λ _. look_up-IsSound _ _ s refl f h)

  -- If the columns of a deployment that does not wait agree with its status, they do after a poll.
  pub refresh-IsSound :
      (s : Session)
      → has_status s.deployment waiting ≡ false
      → IsSound s.deployment
      → IsSound (refresh u s).deployment
  unfolding refresh
  refresh-IsSound s e h =
      if-both SoundObject (is_terminal s.deployment) _ _ (λ _. h)
        (λ alive. refresh_running-IsSound s (ground arith) h)

  pub on_drone_error-IsSound :
      (e : DroneError) (stage : WorkflowStage) (s : Session)
      → in_flight s.deployment ≡ true
      → IsSound s.deployment
      → IsSound (on_drone_error u e stage s).deployment
  unfolding on_drone_error
  on_drone_error-IsSound e stage s f h =
      if-both SoundObject (is_unconfirmed (error_code e)) _ _ (λ _. mark-IsSound u e stage s h)
        (λ _. fail-IsSound u stage _ _ s f h)

  on_promotion-IsSound :
      (stage : WorkflowStage) (answer : Answer DroneBuild) (s : Session)
      → in_flight s.deployment ≡ true
      → IsSound s.deployment
      → IsSound (on_promotion u stage answer s).1.deployment
  unfolding on_promotion
  on_promotion-IsSound stage (ok b) s f h = record_promotion-IsSound u b stage s f h
  on_promotion-IsSound stage (err (drone e)) s f h = on_drone_error-IsSound e stage s f h
  on_promotion-IsSound stage (err other) s f h = h

  sending-deployment :
      (c : ProjectComponent) (s : Session) → (sending u c s).deployment ≡ s.deployment
  sending-deployment c s = ground arith

  on_check-IsSound :
      (c : ProjectComponent) (stage : WorkflowStage) (check : PlanCheck) (s : Session)
      → in_flight s.deployment ≡ true
      → IsSound s.deployment
      → IsSound (on_check u c stage check s).1.deployment
  unfolding on_check
  on_check-IsSound c stage plan_changed s f h = fail-IsSound u stage _ _ s f h
  on_check-IsSound c stage (plan_refused e) s f h = on_drone_error-IsSound e stage s f h
  on_check-IsSound c stage plan_crashed s f h = h
  on_check-IsSound c stage plan_holds s f h =
      on_promotion-IsSound stage _ (sending u c s) (ap in_flight (sending-deployment c s) ∙ f)
        (subst IsSound (sym (sending-deployment c s)) h)

  after_ci-IsSound :
      (c : ProjectComponent) (stage : WorkflowStage) (allowed : Bool) (s : Session)
      → in_flight s.deployment ≡ true
      → IsSound s.deployment
      → IsSound (after_ci u c stage allowed s).1.deployment
  unfolding after_ci
  after_ci-IsSound c stage true s f h = on_check-IsSound c stage _ (tick s) f h
  after_ci-IsSound c stage false s f h = fail-IsSound u stage _ _ s f h

  dispatch-IsSound :
      (c : ProjectComponent) (stage : WorkflowStage) (s : Session)
      → in_flight s.deployment ≡ true
      → IsSound s.deployment
      → IsSound (dispatch u c stage s).1.deployment
  unfolding dispatch
  dispatch-IsSound c stage s f h = after_ci-IsSound c stage _ (tick s) f h

  claim-in_flight :
      (s : Session)
      → (claim_for_promotion u s).0 ≡ true
      → in_flight (claim_for_promotion u s).1.deployment ≡ true
  unfolding claim_for_promotion
  claim-in_flight s h = ground arith

  after_claim-IsSound :
      (c : ProjectComponent) (stage : WorkflowStage) (won : Bool) (s : Session)
      → (won ≡ true → in_flight s.deployment ≡ true)
      → IsSound s.deployment
      → IsSound (after_claim u c stage (won, s)).1.deployment
  unfolding after_claim
  after_claim-IsSound c stage true s f h = dispatch-IsSound c stage s (f refl) h
  after_claim-IsSound c stage false s f h = h

  with_component-IsSound :
      (found : Option ProjectComponent) (s : Session)
      → IsSound s.deployment
      → IsSound s.row
      → IsSound (with_component u found s).1.deployment
  unfolding with_component
  with_component-IsSound none s h k = h
  with_component-IsSound (some c) s h k =
      after_claim-IsSound c _ _ _ (claim-in_flight s) (claim-IsSound u s k).0

  -- If the columns of a deployment and of its row agree with their statuses, then those of the
  -- deployment do after a promotion, whether it ends by an answer, an error or an exception.
  pub promote-IsSound :
      (s : Session) → IsSound s.deployment → IsSound s.row → IsSound (promote u s).1.deployment
  unfolding promote
  promote-IsSound s h k = with_component-IsSound _ (tick s) h k
