-- ===== src/Deployment/Invariant.antt =====
-- What the columns of a deployment say of its status, kept by every operation of
-- app/services/deployment_service.py.
use release_controller.Prelude.{ℕ, String, Bool, true, false, Option, none, some, ◌≡◌, arith, ltb}
use release_controller.Workflow.{
  DeploymentStatus, waiting, promoting, deploying, success, failed, cancelled, WorkflowStage,
}
use release_controller.Drone.{DroneBuild, DroneError}
use release_controller.Deployment.{
  Text, Deployment, Session, Upstream, has_status, is_terminal, in_flight,
}
use release_controller.Deployment.Lifecycle.{succeed, fail, cancel, reset_for_retry}
use release_controller.Deployment.Polling.{record_poll_failure, clear_poll_failure}
use release_controller.Deployment.Promotion.{
  claim_for_promotion, mark_promotion_unconfirmed, record_promotion,
}

abbrev pub is_set {ℓ} : {A : Type ℓ} → Option A → Bool
is_set none = false
is_set (some _) = true

-- Whether the promotion build is known, as far as the status decides it.
abbrev pub KnowsBuild : DeploymentStatus → Option ℕ → Type 0
KnowsBuild waiting number = number ≡ none
KnowsBuild promoting number = number ≡ none
KnowsBuild deploying number = is_set number ≡ true
KnowsBuild success number = is_set number ≡ true
KnowsBuild _ number = Unit

pub record IsSound (d : Deployment) : Type 0 where
  -- a stage exactly while Drone is at work on it
  pub staged : is_set d.current_stage ≡ in_flight d
  -- the time-out of a deployment in flight has something to measure from
  pub started : in_flight d ≡ true → is_set d.started_at ≡ true
  pub ended : is_set d.finished_at ≡ is_terminal d
  pub failed_when : is_set d.failed_at ≡ has_status d failed
  pub failed_where : is_set d.failed_stage ≡ has_status d failed
  pub failed_why : is_set d.error_code ≡ has_status d failed
  pub cancelled_when : is_set d.cancelled_at ≡ has_status d cancelled
  pub cancelled_why : is_set d.cancel_reason ≡ has_status d cancelled
  pub build_known : KnowsBuild d.status d.promotion_build_number
  -- a poll error stands there exactly while failures are counted
  pub poll_counted : is_set d.poll_error_code ≡ ltb 0 d.poll_failure_count

module _ (u : Upstream) where
  pub claim-IsSound :
      (s : Session)
      → IsSound s.row
      → IsSound (claim_for_promotion u s).1.deployment × IsSound (claim_for_promotion u s).1.row
  unfolding claim_for_promotion
  claim-IsSound s h = ground arith

  pub succeed-IsSound :
      (s : Session)
      → s.deployment.status ≡ deploying
      → IsSound s.deployment
      → IsSound (succeed u s).deployment
  unfolding succeed
  succeed-IsSound s e h = ground arith

  pub fail-IsSound :
      (stage : WorkflowStage) (code : String) (message : Text) (s : Session)
      → in_flight s.deployment ≡ true
      → IsSound s.deployment
      → IsSound (fail u stage code message s).deployment
  unfolding fail
  fail-IsSound stage code message s e h = ground arith

  pub cancel-IsSound :
      (reason : Text) (s : Session)
      → s.deployment.status ≡ waiting
      → IsSound s.deployment
      → IsSound (cancel u reason s).deployment
  unfolding cancel
  cancel-IsSound reason s e h = ground arith

  pub reset_for_retry-IsSound : (s : Session) → IsSound (reset_for_retry u s).deployment
  unfolding reset_for_retry
  reset_for_retry-IsSound s = ground arith

  pub record_poll_failure-IsSound :
      (stage : WorkflowStage) (code : String) (s : Session)
      → IsSound s.deployment
      → IsSound (record_poll_failure u stage code s).deployment
  unfolding record_poll_failure
  record_poll_failure-IsSound stage code s h = ground arith

  pub clear_poll_failure-IsSound :
      (stage : WorkflowStage) (s : Session)
      → IsSound s.deployment
      → IsSound (clear_poll_failure u stage s).deployment
  unfolding clear_poll_failure
  clear_poll_failure-IsSound stage s h = ground arith

  pub mark-IsSound :
      (e : DroneError) (stage : WorkflowStage) (s : Session)
      → IsSound s.deployment
      → IsSound (mark_promotion_unconfirmed u e stage s).deployment
  unfolding mark_promotion_unconfirmed
  mark-IsSound e stage s h = ground arith

  pub record_promotion-IsSound :
      (b : DroneBuild) (stage : WorkflowStage) (s : Session)
      → in_flight s.deployment ≡ true
      → IsSound s.deployment
      → IsSound (record_promotion u b stage s).deployment
  unfolding record_promotion
  record_promotion-IsSound b stage s e h = ground arith
