-- ===== src/Orchestrator/Retry.antt =====
-- What the operations on a bundle keep (app/services/release_orchestrator.py).
use release_controller.Prelude.{
  ◌≡◌, refl, ◌∙◌, Bool, true, false, not, List, [], ◌∷◌, ◌++◌, map, arith, any, All, if-both,
  Outcome, ok, err, Whenever,
}
use release_controller.Workflow.{BundleStatus}
use release_controller.Prelude.{◌∙◌, any-rest, if-both, Outcome, ok, err}
use release_controller.Workflow.{success, failed}
use release_controller.Deployment.{Deployment, Upstream, has_status, is_terminal, is_settled}
use release_controller.Deployment.Slots.{has_conflict}
use release_controller.Deployment.Lifecycle.{reset_for_retry}
use release_controller.Orchestrator.{Step, Context, succeeded, has_failed}
use release_controller.Orchestrator.Advance.{Result, advance}
use release_controller.Orchestrator.Frontier.{
  Idle, Stopped, Succeeded, Frontier, complete, past, at_work, to_do, stopped,
}
use release_controller.Orchestrator.Verdict.{Tells, Shape}
use release_controller.Orchestrator.Progress.{advance-Shape}
use release_controller.Orchestrator.Operations.{
  is_failure, is_not_published, OperationError, commit_step, committed, refresh_bundle, reset_step,
  reset_steps, reopen, restart, after_restart, deployments_of, retry_bundle,
}

commit-Idle : (ss : List Step) → All Idle ss → All Idle (map commit_step ss)
commit-Idle [] h = tt
commit-Idle (s ∷ ss) h = ((h.0.0, h.0.0), commit-Idle ss h.1)

commit-Stopped : (ss : List Step) → All Stopped ss → All Stopped (map commit_step ss)
commit-Stopped [] h = tt
commit-Stopped (s ∷ ss) h = (h.0, commit-Stopped ss h.1)

commit-Frontier : (ss : List Step) → Frontier ss → Frontier (map commit_step ss)
commit-Frontier [] f = complete
commit-Frontier (s ∷ ss) (past h f) = past h (commit-Frontier ss f)
commit-Frontier (s ∷ ss) (at_work h i) = at_work h (commit-Idle ss i)
commit-Frontier (s ∷ ss) (to_do h i) = to_do (h.0, h.0) (commit-Idle ss i)
commit-Frontier (s ∷ ss) (stopped h f) = stopped h (commit-Stopped ss f)

commit-Succeeded : (ss : List Step) → All Succeeded ss → All Succeeded (map commit_step ss)
commit-Succeeded [] h = tt
commit-Succeeded (s ∷ ss) h = (h.0, commit-Succeeded ss h.1)

commit-any :
    (p : Deployment → Bool) (ss : List Step)
    → any (λ s. p s.deployment) (map commit_step ss) ≡ any (λ s. p s.deployment) ss
commit-any p [] = refl
commit-any p (s ∷ ss) = rw (commit-any p ss) refl

commit-Tells :
    (status : BundleStatus) (ss : List Step) → Tells status ss → Tells status (map commit_step ss)
commit-Tells BundleStatus.pending ss t = tt
commit-Tells BundleStatus.promoting ss t = tt
commit-Tells BundleStatus.deploying ss t = tt
commit-Tells BundleStatus.success ss t = commit-Succeeded ss t
commit-Tells BundleStatus.failed ss t = (
  commit-any (λ d. has_status d failed) ss ∙ t.0,
  commit-any (λ d. has_status d success) ss ∙ t.1,
)
commit-Tells BundleStatus.partial_failure ss t = (
  commit-any (λ d. has_status d failed) ss ∙ t.0,
  commit-any (λ d. has_status d success) ss ∙ t.1,
)

abbrev pub Terminal : Step → Type 0
Terminal s = is_terminal s.deployment ≡ true

abbrev Answered : Outcome OperationError (Unit {0}) × List Step × Context → Type 0
Answered r = Shape r.1 r.2

Succeeded-Terminal : (ss : List Step) → All Succeeded ss → All Terminal ss
Succeeded-Terminal [] h = tt
Succeeded-Terminal (s ∷ ss) h = (ground arith, Succeeded-Terminal ss h.1)

Stopped-Terminal : (ss : List Step) → All Stopped ss → All Terminal ss
Stopped-Terminal [] h = tt
Stopped-Terminal (s ∷ ss) h = (ground arith, Stopped-Terminal ss h.1)

Idle-not_failed : (ss : List Step) → All Idle ss → any has_failed ss ≡ false
Idle-not_failed [] h = refl
Idle-not_failed (s ∷ ss) h = rw (Idle-not_failed ss h.1) (ground arith)

Idle-not_succeeded : (ss : List Step) → All Idle ss → All (λ s. succeeded s ≡ false) ss
Idle-not_succeeded [] h = tt
Idle-not_succeeded (s ∷ ss) h = (ground arith, Idle-not_succeeded ss h.1)

Stopped-not_succeeded : (ss : List Step) → All Stopped ss → All (λ s. succeeded s ≡ false) ss
Stopped-not_succeeded [] h = tt
Stopped-not_succeeded (s ∷ ss) h = (ground arith, Stopped-not_succeeded ss h.1)

failed-Terminal : (ss : List Step) → Frontier ss → any has_failed ss ≡ true → All Terminal ss
failed-Terminal [] f h = tt
failed-Terminal (s ∷ ss) (past k f) h =
    (ground arith, failed-Terminal ss f (any-rest has_failed s ss (ground arith) h))
failed-Terminal (s ∷ ss) (at_work k i) h =
    absurd
      (let e = Idle-not_failed ss i in let e' = any-rest has_failed s ss (ground arith) h in cc)
failed-Terminal (s ∷ ss) (to_do k i) h =
    absurd
      (let e = Idle-not_failed ss i in let e' = any-rest has_failed s ss (ground arith) h in cc)
failed-Terminal (s ∷ ss) (stopped k i) h = (ground arith, Stopped-Terminal ss i)

settled-cases :
    (status : BundleStatus) (ss : List Step)
    → is_settled status ≡ true
    → Frontier ss
    → Tells status ss
    → All Terminal ss
settled-cases BundleStatus.pending ss e f t = absurd (ground arith)
settled-cases BundleStatus.promoting ss e f t = absurd (ground arith)
settled-cases BundleStatus.deploying ss e f t = absurd (ground arith)
settled-cases BundleStatus.success ss e f t = Succeeded-Terminal ss t
settled-cases BundleStatus.failed ss e f t = failed-Terminal ss f t.0
settled-cases BundleStatus.partial_failure ss e f t = failed-Terminal ss f t.0

module _ (u : Upstream) where
  pub committed-Shape : (r : Result × List Step × Context) → Shape r.1 r.2 → Answered (committed r)
  committed-Shape (ok x, steps, c) (f, t) = (commit-Frontier steps f, commit-Tells _ steps t)
  committed-Shape (err e, steps, c) s = s

  -- From a bundle whose steps are in order and whose status tells the truth, `refresh_bundle` leads
  -- to such a bundle again, whether it returns early, passes and commits, or raises.
  pub refresh_bundle-Shape :
      (steps : List Step) (c : Context) → Shape steps c → Answered (refresh_bundle u steps c)
  unfolding refresh_bundle
  refresh_bundle-Shape steps c s =
      if-both Answered (is_settled c.bundle.status) _ _ (λ _. s)
        (λ o. committed-Shape (advance u steps c) (advance-Shape u steps c o s.0))

  -- From a bundle whose steps are in order and whose status tells the truth: if `refresh_bundle` leaves
  -- it ended, by success, failure or partial failure, no deployment of it waits or is in flight.
  pub refresh_bundle-Terminal :
      (steps : List Step) (c : Context)
      → Shape steps c
      → is_settled (refresh_bundle u steps c).2.bundle.status ≡ true
      → All Terminal (refresh_bundle u steps c).1
  refresh_bundle-Terminal steps c s e =
      let after = refresh_bundle-Shape steps c s in settled-cases _ _ e after.0 after.1

  reset_step-other :
      (c : Context) (s : Step) → succeeded s ≡ false → Idle (commit_step (reset_step u c s).0)
  unfolding reset_step reset_for_retry
  reset_step-other c s e = ground arith

  reset_step-same : (c : Context) (s : Step) → succeeded s ≡ true → reset_step u c s ≡ (s, c)
  unfolding reset_step
  reset_step-same c s e = rw e

  reset_steps-Idle :
      (ss : List Step) (c : Context)
      → All (λ s. succeeded s ≡ false) ss
      → All Idle (map commit_step (reset_steps u ss c).0)
  unfolding reset_steps
  reset_steps-Idle [] c h = tt
  reset_steps-Idle (s ∷ ss) c h =
      (reset_step-other c s h.0, reset_steps-Idle ss (reset_step u c s).1 h.1)

  reset_steps-Frontier :
      (ss : List Step) (c : Context)
      → Frontier ss
      → Frontier (map commit_step (reset_steps u ss c).0)
  unfolding reset_steps
  reset_steps-Frontier [] c f = complete
  reset_steps-Frontier (s ∷ ss) c (past h f) =
      let same = reset_step-same c s h in rw same (past h (reset_steps-Frontier ss c f))
  reset_steps-Frontier (s ∷ ss) c (at_work h i) =
      to_do (reset_step-other c s (ground arith))
        (reset_steps-Idle ss (reset_step u c s).1 (Idle-not_succeeded ss i))
  reset_steps-Frontier (s ∷ ss) c (to_do h i) =
      to_do (reset_step-other c s (ground arith))
        (reset_steps-Idle ss (reset_step u c s).1 (Idle-not_succeeded ss i))
  reset_steps-Frontier (s ∷ ss) c (stopped h i) =
      to_do (reset_step-other c s (ground arith))
        (reset_steps-Idle ss (reset_step u c s).1 (Stopped-not_succeeded ss i))

  -- What is passed over after the reset.
  abbrev Ready : List Step × Context → Type 0
  Ready r = Frontier r.0 × (is_settled r.1.bundle.status ≡ false)

  reopen-Ready : (steps : List Step) (c : Context) → Frontier steps → Ready (reopen u steps c)
  unfolding reopen
  reopen-Ready steps c f = (reset_steps-Frontier steps _ f, refl)

  restart-Ready :
      (others : List Deployment) (steps : List Step) (c : Context)
      → Frontier steps
      → Whenever Ready (restart u others steps c)
  unfolding restart
  restart-Ready others steps c f =
      if-both (Whenever Ready) (has_conflict (deployments_of (reopen u steps c).0 ++ others)) _ _
        (λ _. tt) (λ _. reopen-Ready steps c f)

  after_restart-Shape :
      (steps : List Step) (c : Context) (r : Outcome OperationError (List Step × Context))
      → Shape steps c
      → Whenever Ready r
      → Answered (after_restart u steps c r)
  after_restart-Shape steps c (err e) s h = s
  after_restart-Shape steps c (ok (steps', c')) s h =
      committed-Shape (advance u steps' c') (advance-Shape u steps' c' h.1 h.0)

  -- From a bundle whose steps are in order and whose status tells the truth, `retry_bundle` leads to
  -- such a bundle again, whatever other deployments there are, and whether it refuses, raises, is
  -- stopped by the unique index, or restarts the steps and passes over them.
  pub retry_bundle-Shape :
      (others : List Deployment) (steps : List Step) (c : Context)
      → Shape steps c
      → Answered (retry_bundle u others steps c)
  unfolding retry_bundle
  retry_bundle-Shape others steps c s =
      if-both Answered (not (is_failure c.bundle.deployment_status)) _ _ (λ _. s)
        (λ _.
          if-both Answered (not (is_not_published c.bundle.publish_status)) _ _ (λ _. s)
            (λ _.
              if-both Answered (not (any (λ x. not (succeeded x)) steps)) _ _ (λ _. s)
                (λ _.
                  after_restart-Shape steps c (restart u others steps c) s
                    (restart-Ready others steps c s.0))))
