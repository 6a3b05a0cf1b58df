-- ===== src/Orchestrator/Advance.antt =====
-- `_advance` of app/services/release_orchestrator.py. The rows of the other steps are not read
-- before the pass ends, so what a commit in its midst writes of them is written at its end.
use release_controller.Prelude.{List, [], ◌∷◌, ◌++◌, Outcome, ok, err}
use release_controller.Workflow.{DeploymentStatus, waiting, promoting, deploying, success, failed}
use release_controller.Deployment.{Session, Upstream}
use release_controller.Deployment.Promotion.{PromoteError, promote}
use release_controller.Deployment.Refreshing.{refresh}
use release_controller.Orchestrator.{
  Step, Context, session, step_of, context_of, fail_bundle, finish_success,
}

abbrev pub Result : Type 0
Result = Outcome PromoteError (Unit {0})

module _ (u : Upstream) where
  -- What one step of the walk does, by the status that it finds.
  unfoldable pub visit : DeploymentStatus → Session → Result × Session
  visit promoting s = (ok tt, refresh u s)
  visit deploying s = (ok tt, refresh u s)
  visit waiting s = promote u s
  visit _ s = (ok tt, s)

  -- The walk goes on behind a step that succeeded, fails the bundle at one that failed, and stops at
  -- any other. `before` are the steps behind it, `later` is the walk over the steps ahead.
  unfoldable pub settle :
      DeploymentStatus
      → Step
      → List Step
      → List Step
      → Context
      → (Context → Result × List Step × Context)
      → Result × List Step × Context
  settle failed step before ahead c later =
      let (steps, c') = fail_bundle u step.deployment (before ++ step ∷ ahead) c in
      (ok tt, steps, c')
  settle success step before ahead c later = later c
  settle _ step before ahead c later = (ok tt, before ++ step ∷ ahead, c)

  unfoldable pub after_visit :
      Result × Session
      → List Step
      → List Step
      → Context
      → (Step → Context → Result × List Step × Context)
      → Result × List Step × Context
  after_visit (err e, s) before ahead c later = (err e, before ++ step_of s ∷ ahead, context_of c s)
  after_visit (ok _, s) before ahead c later =
      settle s.deployment.status (step_of s) before ahead (context_of c s) (later (step_of s))

  unfoldable pub walk : List Step → List Step → Context → Result × List Step × Context
  walk before [] c = (ok tt, before, finish_success u c)
  walk before (step ∷ ahead) c =
      after_visit (visit step.deployment.status (session c step)) before ahead c
        (λ done c'. walk (before ++ done ∷ []) ahead c')

  unfoldable pub advance : List Step → Context → Result × List Step × Context
  advance steps c = walk [] steps c
