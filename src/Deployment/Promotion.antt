-- ===== src/Deployment/Promotion.antt =====
-- Claiming a deployment and sending its promotion (app/services/deployment_service.py:
-- `claim_for_promotion`, `promote` and the methods that they call).
use release_controller.Prelude.{
  ℕ, String, Bool, true, false, ◌||◌, Option, none, some, [], ◌∷◌, ◌+◌, or_else, str_eq,
  if◌then◌else◌, Outcome, ok, err,
}
use release_controller.Workflow.{
  waiting, promoting, deploying, BundleStatus, WorkflowStage, promote_stage, wait_stage,
  stage_started, stage_succeeded, promotion_created, promotion_unconfirmed,
}
use release_controller.Registry.{ProjectComponent}
use release_controller.Drone.{DroneBuild, DroneError, error_code, drone, other}
use release_controller.Drone.Builds
use release_controller.Deployment.{
  lit, num, Deployment, ReleaseBundle, Session, PlanCheck, plan_holds, plan_changed, plan_crashed,
  plan_refused, Upstream, has_status,
}
use release_controller.Deployment.Events.{tick, commit, emit}
use release_controller.Deployment.Lifecycle.{fail}

-- The exceptions that leave `promote`: the component is gone, or anything else that is not caught.
pub data PromoteError : Type 0 where
  component_not_registered uncaught : PromoteError

-- `UNCONFIRMED_PROMOTE_ERROR_CODES`
abbrev pub is_unconfirmed : String → Bool
is_unconfirmed code =
    str_eq code "DRONE_TIMEOUT"
    || str_eq code "DRONE_UNAVAILABLE"
    || str_eq code "DRONE_UNAVAILABLE"

-- `WHERE … status IN CLAIMABLE_FOR_PROMOTION`
abbrev pub is_claimable : Deployment → Bool
is_claimable row = has_status row waiting

abbrev claim_bundle : WorkflowStage → ℕ → Option ReleaseBundle → Option ReleaseBundle
claim_bundle stage now none = none
claim_bundle stage now (some b) = some (record b {
  status = BundleStatus.promoting;
  deployment_status = BundleStatus.promoting;
  current_stage = some stage;
  started_at = some (or_else b.started_at now);
  updated_at = now;
})

abbrev deploy_bundle : WorkflowStage → ℕ → Option ReleaseBundle → Option ReleaseBundle
deploy_bundle stage now none = none
deploy_bundle stage now (some b) = some (record b {
  status = BundleStatus.deploying;
  deployment_status = BundleStatus.deploying;
  current_stage = some stage;
  updated_at = now;
})

module _ (u : Upstream) where
  -- The conditional UPDATE decides. Both ways the object is expired, and reads as its row after.
  unfoldable pub claim_for_promotion : Session → Bool × Session
  claim_for_promotion s =
      let stage = promote_stage s.deployment.component in
      let now = u.clock s.ticks in
      let claimed = record s.row {
        status = promoting;
        current_stage = some stage;
        started_at = some (or_else s.row.started_at now);
        updated_at = now;
      } in
      if is_claimable s.row
      then (
        true,
        commit (
            emit u stage stage_started none none (
              tick (record s {
                deployment = claimed;
                row = claimed;
                release = claim_bundle stage now s.release;
              }))),
      )
      else (false, tick (record s { deployment = s.row }))

  unfoldable pub mark_promotion_unconfirmed : DroneError → WorkflowStage → Session → Session
  mark_promotion_unconfirmed e stage s =
      emit u stage promotion_unconfirmed (some (error_code e))
        (some (lit "Drone promotion outcome is unknown" ∷ []))
        (tick (record s {
          deployment = record s.deployment {
            poll_error_code = some "DRONE_PROMOTE_UNCONFIRMED";
            poll_error_message = some (
                lit "Drone did not confirm the promotion request ("
                ∷ lit (error_code e)
                ∷ lit "). Waiting to reconcile rather than promoting again."
                ∷ []);
            poll_failure_count = s.deployment.poll_failure_count + 1;
            updated_at = u.clock s.ticks;
          };
        }))

  -- The writes of `_record_promotion`, before its three events.
  abbrev recorded : DroneBuild → Session → Session
  recorded promotion s =
      let now = u.clock s.ticks in
      let stage = wait_stage s.deployment.component in
      tick (record s {
        deployment = record s.deployment {
          promotion_build_number = some promotion.number;
          status = deploying;
          current_stage = some stage;
          updated_at = now;
        };
        release = deploy_bundle stage now s.release;
      })

  unfoldable pub record_promotion : DroneBuild → WorkflowStage → Session → Session
  record_promotion promotion stage s =
      emit u (wait_stage s.deployment.component) stage_started none none (
        emit u stage promotion_created none
          (some (lit "Drone promotion build #" ∷ num promotion.number ∷ lit " created" ∷ []))
          (emit u stage stage_succeeded none none (recorded promotion s)))

  -- `except DroneError`
  unfoldable pub on_drone_error : DroneError → WorkflowStage → Session → Session
  on_drone_error e stage s =
      if is_unconfirmed (error_code e)
      then mark_promotion_unconfirmed e stage s
      else fail u stage (error_code e) (lit "Drone promotion request rejected" ∷ []) s

  abbrev plan_failed : WorkflowStage → Session → Session
  plan_failed stage =
      fail u stage "APPROVED_PLAN_CHANGED"
        (lit "Approved plan no longer matches deployment state." ∷ [])

  -- `self.builds.promote`: the request goes out if the component names a repository.
  abbrev pub sending : ProjectComponent → Session → Session
  sending c s = elim (Builds.repository_of c) [
    | err _ ↦ tick s
    | ok (owner, name) ↦ tick (record s {
      sent =
          record {
            deployment_id = s.deployment.id;
            owner = owner;
            name = name;
            build = s.deployment.source_build_number;
            target = s.deployment.target;
          }
          ∷ s.sent;
    })
  ]

  unfoldable pub on_promotion :
      WorkflowStage → Builds.Answer DroneBuild → Session → Outcome PromoteError (Unit {0}) × Session
  on_promotion stage (ok promotion) s = (ok tt, commit (record_promotion promotion stage s))
  on_promotion stage (err (drone e)) s = (ok tt, commit (on_drone_error e stage s))
  on_promotion stage (err other) s = (err uncaught, s)

  unfoldable pub on_check :
      ProjectComponent
      → WorkflowStage
      → PlanCheck
      → Session
      → Outcome PromoteError (Unit {0}) × Session
  on_check c stage plan_changed s = (ok tt, commit (plan_failed stage s))
  on_check c stage (plan_refused e) s = (ok tt, commit (on_drone_error e stage s))
  on_check c stage plan_crashed s = (err uncaught, s)
  on_check c stage plan_holds s =
      on_promotion stage
        (Builds.promote u.client s.ticks c s.deployment.source_build_number s.deployment.target)
        (sending c s)

  unfoldable pub after_ci :
      ProjectComponent → WorkflowStage → Bool → Session → Outcome PromoteError (Unit {0}) × Session
  after_ci c stage true s =
      on_check c stage (u.verify_planned_deployment s.ticks s.deployment c) (tick s)
  after_ci c stage false s = (
    ok tt,
    commit (
        fail u stage "CI_DISPATCH_REJECTED"
          (lit "CI authorization or component configuration changed" ∷ []) s),
  )

  -- The `try` block of `promote`, after a claim that was won.
  unfoldable pub dispatch :
      ProjectComponent → WorkflowStage → Session → Outcome PromoteError (Unit {0}) × Session
  dispatch c stage s = after_ci c stage (u.ci_dispatch_allowed s.ticks s.deployment c) (tick s)

  -- After the claim: the loser leaves the deployment to the winner.
  unfoldable pub after_claim :
      ProjectComponent → WorkflowStage → Bool × Session → Outcome PromoteError (Unit {0}) × Session
  after_claim c stage (true, s) = dispatch c stage s
  after_claim c stage (false, s) = (ok tt, s)

  unfoldable pub with_component :
      Option ProjectComponent → Session → Outcome PromoteError (Unit {0}) × Session
  with_component none s = (err component_not_registered, s)
  with_component (some c) s =
      after_claim c (promote_stage s.deployment.component) (claim_for_promotion s)

  unfoldable pub promote : Session → Outcome PromoteError (Unit {0}) × Session
  promote s = with_component (u.component_row s.ticks s.deployment.component_id) (tick s)
