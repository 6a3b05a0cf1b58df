-- ===== src/Orchestrator/Rounds.antt =====
-- `advance` of app/usecase/orchestration/_promotion.py: the pass over a bundle as rounds, each of which
-- asks `next_decision` (app/domain/orchestration/entities/release_bundle.py) what to do. What a
-- promotion or a refresh does to a step is a parameter; the list is read again in each round.
use release_controller.Prelude.{
  ℕ, zero, suc, Bool, true, false, ◌||◌, none, some, List, [], ◌∷◌, ◌++◌, length, if◌then◌else◌, ok,
  err,
}
use release_controller.Workflow.{
  DeploymentStatus, waiting, promoting, deploying, success, failed, cancelled, BundleStatus,
  WorkflowStage, WorkflowEventType, promote_stage, deployment_cancelled, deployment_value,
  bundle_value, wait_publish_request, stage_started, complete_deployment, release_completed,
}
use release_controller.Deployment.{
  lit, capitalized, Text, Deployment, ReleaseBundle, Session, Upstream, has_status,
}
use release_controller.Deployment.Events.{new_event}
use release_controller.Orchestrator.{Step, Context, session, step_of, context_of}
use release_controller.Orchestrator.Advance.{Result}

pub data Activity : Type 0 where
  refresh_it promote_it fail_it wait_for_it : Activity

-- What to do, and the step to do it to, between those before and those behind it.
pub data Decision : Type 0 where
  finish_it : Decision
  at_step : Activity → List Step → Step → List Step → Decision

-- One round of the loop of `next_decision`; `later` is what the rest of the loop finds.
unfoldable pub decide : DeploymentStatus → List Step → Step → List Step → Decision → Decision
decide promoting before step ahead later = at_step refresh_it before step ahead
decide deploying before step ahead later = at_step refresh_it before step ahead
decide waiting before step ahead later = at_step promote_it before step ahead
decide failed before step ahead later = at_step fail_it before step ahead
decide success before step ahead later = later
decide cancelled before step ahead later = at_step wait_for_it before step ahead

unfoldable pub next_from : List Step → List Step → Decision
next_from before [] = finish_it
next_from before (step ∷ ahead) =
    decide step.deployment.status before step ahead (next_from (before ++ step ∷ []) ahead)

abbrev pub next_decision : List Step → Decision
next_decision ordered = next_from [] ordered

-- Whether the pass has settled, and what it leaves.
abbrev pub Pass : Type 0
Pass = Bool × (Result × List Step × Context)

abbrev failing : List Step × Context → Pass
failing (steps, c) = (true, (ok tt, steps, c))

-- `ReleaseBundle.cancellation_reason`
abbrev pub reason_of : Deployment → Text
reason_of lost = capitalized lost.component ∷ lit " deployment failed" ∷ []

-- `any(step.status is DeploymentStatus.SUCCESS for step in steps)`
unfoldable pub any_succeeded : List Step → Bool
any_succeeded [] = false
any_succeeded (step ∷ steps) = has_status step.deployment success || any_succeeded steps

-- `Deployment.cancel`
unfoldable pub cancel_deployment : Text → ℕ → Deployment → Deployment
cancel_deployment reason at d = record d {
  status = cancelled;
  current_stage = none;
  cancel_reason = some reason;
  cancelled_at = some at;
  finished_at = some at;
  updated_at = at;
}

-- `ReleaseBundle.fail`
unfoldable pub fail_release : Deployment → Bool → ℕ → ReleaseBundle → ReleaseBundle
fail_release lost succeeded_some at bundle =
    let status = if succeeded_some then BundleStatus.partial_failure else BundleStatus.failed in
    record bundle {
      status = status;
      deployment_status = status;
      current_stage = none;
      failed_stage = lost.failed_stage;
      error_code = lost.error_code;
      error_message = lost.error_message;
      failed_at = some at;
      finished_at = some at;
      updated_at = at;
    }

-- `ReleaseBundle.finish_success`
unfoldable pub succeed_release : ℕ → ReleaseBundle → ReleaseBundle
succeed_release at bundle = record bundle {
  status = BundleStatus.success;
  deployment_status = BundleStatus.success;
  current_stage = none;
  finished_at = some at;
  updated_at = at;
}

module _ (u : Upstream) where
  -- `cancel`; `save` carries the entity over to the loaded object.
  unfoldable pub cancel_step : Text → Step → Context → Step × Context
  cancel_step reason step c =
      let gone = cancel_deployment reason (u.clock c.ticks) step.deployment in
      (
        record step { deployment = gone },
        record c {
          events =
              new_event u (some c.bundle) (some gone) (promote_stage gone.component)
                deployment_cancelled (some (deployment_value gone.status)) none (some reason)
              ∷ c.events;
          ticks = suc c.ticks;
        },
      )

  -- The loop of `_fail_bundle` over the steps.
  unfoldable pub cancel_later : Text → List Step → Context → List Step × Context
  cancel_later reason [] c = ([], c)
  cancel_later reason (later ∷ steps) c =
      let (later', c') =
        if has_status later.deployment waiting then cancel_step reason later c else (later, c) in
      let (steps', c'') = cancel_later reason steps c' in (later' ∷ steps', c'')

  -- `_fail_bundle`
  unfoldable pub stop_release : Deployment → List Step → Context → List Step × Context
  stop_release lost steps c =
      let (steps', c') = cancel_later (reason_of lost) steps c in
      (
        steps',
        record c' {
          bundle = fail_release lost (any_succeeded steps') (u.clock c'.ticks) c'.bundle;
          ticks = suc c'.ticks;
        },
      )

  -- An event that `_finish_bundle` appends.
  abbrev append_release_event : WorkflowStage → WorkflowEventType → Context → Context
  append_release_event stage event_type c = record c {
    events =
        new_event u (some c.bundle) none stage event_type (some (bundle_value c.bundle.status)) none
          none
        ∷ c.events;
  }

  -- `_finish_bundle`
  unfoldable pub finish_release : Context → Context
  finish_release c = append_release_event wait_publish_request stage_started (
      append_release_event complete_deployment release_completed
        (record c { bundle = succeed_release (u.clock c.ticks) c.bundle; ticks = suc c.ticks }))

module _ (u : Upstream) (act : DeploymentStatus → Session → Result × Session) where
  -- The check after an action; `again` is the next round.
  unfoldable pub settle_round :
      DeploymentStatus → Step → List Step → Context → (List Step → Context → Pass) → Pass
  settle_round failed step steps c again = failing (stop_release u step.deployment steps c)
  settle_round success step steps c again = again steps c
  settle_round _ step steps c again = (true, (ok tt, steps, c))

  unfoldable pub after_action :
      Result × Session → List Step → List Step → Context → (List Step → Context → Pass) → Pass
  after_action (err e, s) before ahead c again =
      (true, (err e, before ++ step_of s ∷ ahead, context_of c s))
  after_action (ok x, s) before ahead c again =
      settle_round s.deployment.status (step_of s) (before ++ step_of s ∷ ahead) (context_of c s)
        again

  unfoldable pub carry_out : Decision → List Step → Context → (List Step → Context → Pass) → Pass
  carry_out finish_it steps c again = (true, (ok tt, steps, finish_release u c))
  carry_out (at_step fail_it before step ahead) steps c again =
      failing (stop_release u step.deployment steps c)
  carry_out (at_step wait_for_it before step ahead) steps c again = (true, (ok tt, steps, c))
  carry_out (at_step _ before step ahead) steps c again =
      after_action (act step.deployment.status (session c step)) before ahead c again

  -- The loop, with so many rounds left.
  unfoldable pub rounds : ℕ → List Step → Context → Pass
  rounds zero steps c = (false, (ok tt, steps, c))
  rounds (suc n) steps c = carry_out (next_decision steps) steps c (rounds n)

  unfoldable pub advance_in_rounds : List Step → Context → Pass
  advance_in_rounds steps c = rounds (suc (length steps)) steps c
