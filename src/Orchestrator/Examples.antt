-- ===== src/Orchestrator/Examples.antt =====
-- A bundle of three components, driven forward and retried
-- (app/services/release_orchestrator.py).
use release_controller.Prelude.{
  ◌≡◌, refl, ◌⊎◌, true, none, some, List, [], ◌∷◌, ◌++◌, arith, All, ok, err,
}
use release_controller.Workflow.{success, failed, cancelled, BundleStatus}
use release_controller.Deployment.Invariant.{IsSound}
use release_controller.Orchestrator.Standalone.{Left, refresh_standalone-Left}
use release_controller.Deployment.{Text, lit, Session, Deployment, is_settled}
use release_controller.Deployment.Refreshing.{
  refresh, refresh_running, look_up, poll, asked_build, on_build, judge, note_status,
  stages_rejected,
}
use release_controller.Deployment.Polling.{timed_out, clear_poll_failure}
use release_controller.Deployment.Lifecycle.{succeed}
use release_controller.Drone.Builds.{get_build}
use release_controller.Deployment.Fixtures.{at, prompt, silent, upstream, fresh, running, bundle}
use release_controller.Orchestrator.{Step, Context, finish_success}
use release_controller.Orchestrator.Advance.{advance, walk, visit, after_visit, settle}
use release_controller.Orchestrator.Operations.{
  refresh_standalone, refresh_bundle, restart, retry_bundle, deployments_of, integrity_error,
}
use release_controller.Deployment.Slots.{IsExclusive}
use release_controller.Orchestrator.Rounds.{advance_in_rounds}
use release_controller.Orchestrator.Agreement.{advance_in_rounds-advance}
use release_controller.Drone.{CallError}
use release_controller.Drone.Fixtures.{api}
use release_controller.Orchestrator.Polls.{refresh_deployment}
use release_controller.Orchestrator.Parity.{Alike, refresh_deployment-Alike}
use release_controller.Orchestrator.Frontier.{Frontier, past, at_work, stopped}
use release_controller.Orchestrator.Verdict.{Shape}
use release_controller.Orchestrator.Progress.{advance-Shape}
use release_controller.Orchestrator.Retry.{
  Terminal, refresh_bundle-Shape, refresh_bundle-Terminal, retry_bundle-Shape,
}
use release_controller.Orchestrator.Restart.{Restarted, restart-Restarted}

abbrev step : Deployment → Step
step d = record { deployment = d; row = d }

abbrev context : Context
context = record { bundle = bundle; events = []; sent = []; ticks = 0 }

abbrev done : Deployment
done = record (running "a") { status = success; current_stage = none; finished_at = some 3 }

abbrev lost : Deployment
lost = record (running "b") {
  status = failed;
  current_stage = none;
  error_code = some "DRONE_BUILD_FAILED";
  failed_at = some 4;
  finished_at = some 4;
}

abbrev given_up : Deployment
given_up = record (fresh "c") { status = cancelled; cancelled_at = some 4; finished_at = some 4 }

abbrev middle : List Step
middle = step done ∷ step (running "b") ∷ step (fresh "c") ∷ []

abbrev stuck : List Step
stuck = step done ∷ step lost ∷ step given_up ∷ []

abbrev stuck_context : Context
stuck_context = record context {
  bundle = record bundle {
    status = BundleStatus.partial_failure;
    deployment_status = BundleStatus.partial_failure;
  };
}

middle-Frontier : Frontier middle
middle-Frontier = past refl (at_work refl ((refl, refl), tt))

stuck-Shape : Shape stuck stuck_context
stuck-Shape = (past refl (stopped refl (refl, tt)), (refl, refl))

advance-Shape_example :
    Shape (advance (upstream prompt) middle context).1 (advance (upstream prompt) middle context).2
advance-Shape_example = advance-Shape (upstream prompt) middle context refl middle-Frontier

refresh_bundle-Shape_example :
    Shape
      (refresh_bundle (upstream prompt) middle context).1
      (refresh_bundle (upstream prompt) middle context).2
refresh_bundle-Shape_example =
    refresh_bundle-Shape (upstream prompt) middle context (middle-Frontier, tt)

abbrev last : List Step
last = step done ∷ step (running "b") ∷ []

last-Frontier : Frontier last
last-Frontier = past refl (at_work refl tt)

-- The last build has succeeded, and the pass ends the bundle.
ends : is_settled (refresh_bundle (upstream prompt) last context).2.bundle.status ≡ true
unfolding refresh_bundle advance walk visit after_visit settle refresh refresh_running timed_out
    look_up poll asked_build get_build on_build judge note_status clear_poll_failure stages_rejected
    succeed finish_success
ends = refl

refresh_bundle-Terminal_example : All Terminal (refresh_bundle (upstream prompt) last context).1
refresh_bundle-Terminal_example =
    refresh_bundle-Terminal (upstream prompt) last context (last-Frontier, tt) ends

-- Another deployment has taken the slot of the failed one meanwhile.
abbrev rival : List Deployment
rival = record (running "b") { id = "other" } ∷ []

restart-Restarted_example :
    (ts : List Step) × Restarted stuck ts
    × (((restart (upstream silent) rival stuck stuck_context ≡ err integrity_error)
          × ¬ IsExclusive (deployments_of ts ++ rival))
        ⊎ ((c' : Context) × (restart (upstream silent) rival stuck stuck_context ≡ ok (ts, c'))
            × IsExclusive (deployments_of ts ++ rival)))
restart-Restarted_example = restart-Restarted (upstream silent) rival stuck stuck_context

retry_bundle-Shape_example :
    Shape
      (retry_bundle (upstream silent) [] stuck stuck_context).1
      (retry_bundle (upstream silent) [] stuck stuck_context).2
retry_bundle-Shape_example = retry_bundle-Shape (upstream silent) [] stuck stuck_context stuck-Shape

-- A deployment outside of bundles, which Drone promotes at once.
abbrev alone : Session
alone = record (at (record (fresh "a") { release_bundle_id = none })) { release = none }

alone-IsSound : IsSound alone.deployment
alone-IsSound = ground arith

refresh_standalone-Left_example :
    Left (upstream prompt) (refresh_standalone (upstream prompt) alone)
refresh_standalone-Left_example =
    refresh_standalone-Left (upstream prompt) alone alone-IsSound alone-IsSound

advance_in_rounds-advance_example :
    advance_in_rounds (upstream prompt) (visit (upstream prompt)) middle context
    ≡ (true, advance (upstream prompt) middle context)
advance_in_rounds-advance_example = advance_in_rounds-advance (upstream prompt) middle context

abbrev words : CallError → Text
words e = lit "HTTP" ∷ []

refresh_deployment-Alike_example :
    ((refresh_deployment (upstream prompt) words (at (running "d1"))).0 ≡ ok tt)
    × Alike
        (refresh_deployment (upstream prompt) words (at (running "d1"))).1.deployment
        (refresh (upstream prompt) (at (running "d1"))).deployment
refresh_deployment-Alike_example =
    refresh_deployment-Alike (upstream prompt) words (at (running "d1")) api refl refl
