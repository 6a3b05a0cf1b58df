-- ===== src/Orchestrator/Progress.antt =====
-- A pass over a bundle keeps its shape (app/services/release_orchestrator.py, `_advance`).
use release_controller.Prelude.{
  true, false, List, [], ◌∷◌, ◌++◌, All, All-append, ◌≡◌, refl, ◌⊎◌, inl, inr, arith, ok, err,
}
use release_controller.Workflow.{
  DeploymentStatus, waiting, promoting, deploying, success, failed, cancelled,
}
use release_controller.Deployment.{IsOpen, is_settled, Session, Upstream, has_status, in_flight}
use release_controller.Deployment.Events.{tick}
use release_controller.Deployment.Promotion.{is_claimable, component_not_registered}
use release_controller.Deployment.Quiet.{is_cancelled, refresh-Quiet}
use release_controller.Deployment.Attempts.{Attempted, promote-cases}
use release_controller.Orchestrator.{
  finish_success, fail_bundle, Step, Context, session, step_of, context_of,
}
use release_controller.Orchestrator.Advance.{Result, visit, settle, after_visit, walk, advance}
use release_controller.Orchestrator.Frontier.{
  Idle, Succeeded, Frontier, past, at_work, to_do, stopped, failing, Frontier-Idle, Frontier-before,
  Frontier-done, Broken-before, Idle-or_Stopped, Stopped-already,
}
use release_controller.Orchestrator.Verdict.{Shape, Tells-open, open_after, fail_bundle-Shape}

abbrev Shaped : Result × List Step × Context → Type 0
Shaped r = Shape r.1 r.2

module _ (u : Upstream) where
  settle-Shape :
      (status : DeploymentStatus) (step : Step) (before ahead : List Step) (c : Context)
      (later : Context → Result × List Step × Context)
      → step.deployment.status ≡ status
      → is_claimable step.deployment ≡ false
      → is_cancelled step.deployment ≡ false
      → is_settled c.bundle.status ≡ false
      → All Succeeded before
      → All Idle ahead
      → (Succeeded step → Shaped (later c))
      → Shaped (settle u status step before ahead c later)
  unfolding settle
  settle-Shape waiting step before ahead c later e k a o b i go = absurd (ground arith)
  settle-Shape cancelled step before ahead c later e k a o b i go = absurd (ground arith)
  settle-Shape promoting step before ahead c later e k a o b i go =
      (Frontier-before before _ b (at_work (ground arith) i), Tells-open _ _ o)
  settle-Shape deploying step before ahead c later e k a o b i go =
      (Frontier-before before _ b (at_work (ground arith) i), Tells-open _ _ o)
  settle-Shape success step before ahead c later e k a o b i go = go (ground arith)
  settle-Shape failed step before ahead c later e k a o b i go =
      fail_bundle-Shape u step.deployment c (before ++ step ∷ ahead)
        (Broken-before before _ b (failing (ground arith) (Idle-or_Stopped ahead i)))

  after_visit-Shape :
      (r : Result × Session) (before ahead : List Step) (c : Context)
      (later : Step → Context → Result × List Step × Context)
      → Attempted u r
      → is_settled c.bundle.status ≡ false
      → All Succeeded before
      → All Idle ahead
      → (Succeeded (step_of r.1)
          → is_settled (context_of c r.1).bundle.status ≡ false
          → Shaped (later (step_of r.1) (context_of c r.1)))
      → Shaped (after_visit u r before ahead c later)
  unfolding after_visit
  after_visit-Shape (err e, s) before ahead c later r o b i go = (
    Frontier-before before _ b (at_work (r.raised e refl) i),
    Tells-open _ _ (open_after c s r.still_open o),
  )
  after_visit-Shape (ok _, s) before ahead c later r o b i go =
      let o' = open_after c s r.still_open o in
      settle-Shape s.deployment.status (step_of s) before ahead (context_of c s) (later (step_of s))
        refl r.left r.alive o' b i (λ won. go won o')

  visit_at_work :
      (status : DeploymentStatus) (s : Session)
      → s.deployment.status ≡ status
      → in_flight s.deployment ≡ true
      → IsOpen s.release
      → Attempted u (visit u status s)
  unfolding visit
  visit_at_work promoting s e f o =
      let q = refresh-Quiet u s in
      record {
        left = q.kept (ground arith);
        alive = q.alive (ground arith);
        still_open = q.still_open o;
        raised = λ x h. cc;
      }
  visit_at_work deploying s e f o =
      let q = refresh-Quiet u s in
      record {
        left = q.kept (ground arith);
        alive = q.alive (ground arith);
        still_open = q.still_open o;
        raised = λ x h. cc;
      }
  visit_at_work waiting s e f o = absurd (ground arith)
  visit_at_work _ s e f o = absurd (ground arith)

  visit_to_do :
      (status : DeploymentStatus) (s : Session)
      → s.deployment.status ≡ status
      → has_status s.deployment waiting ≡ true
      → is_claimable s.row ≡ true
      → (visit u status s ≡ (err component_not_registered, tick s)) ⊎ Attempted u (visit u status s)
  unfolding visit
  visit_to_do waiting s e w h = promote-cases u s h
  visit_to_do promoting s e w h = absurd (ground arith)
  visit_to_do _ s e w h = absurd (ground arith)

  visit_other :
      (status : DeploymentStatus) (s : Session)
      → s.deployment.status ≡ status
      → has_status s.deployment waiting ≡ false
      → in_flight s.deployment ≡ false
      → visit u status s ≡ (ok tt, s)
  unfolding visit
  visit_other waiting s e w f = absurd (ground arith)
  visit_other promoting s e w f = absurd (ground arith)
  visit_other deploying s e w f = absurd (ground arith)
  visit_other success s e w f = refl
  visit_other failed s e w f = refl
  visit_other cancelled s e w f = refl

  settle_success :
      (status : DeploymentStatus) (step : Step) (before ahead : List Step) (c : Context)
      (later : Context → Result × List Step × Context)
      → status ≡ success
      → Shaped (later c)
      → Shaped (settle u status step before ahead c later)
  unfolding settle
  settle_success waiting step before ahead c later e f = absurd (cc)
  settle_success promoting step before ahead c later e f = absurd (cc)
  settle_success deploying step before ahead c later e f = absurd (cc)
  settle_success success step before ahead c later e f = f
  settle_success failed step before ahead c later e f = absurd (cc)
  settle_success cancelled step before ahead c later e f = absurd (cc)

  settle_failed :
      (status : DeploymentStatus) (step : Step) (before ahead : List Step) (c : Context)
      (later : Context → Result × List Step × Context)
      → status ≡ failed
      → Shape
          (fail_bundle u step.deployment (before ++ step ∷ ahead) c).0
          (fail_bundle u step.deployment (before ++ step ∷ ahead) c).1
      → Shaped (settle u status step before ahead c later)
  unfolding settle
  settle_failed waiting step before ahead c later e f = absurd (cc)
  settle_failed promoting step before ahead c later e f = absurd (cc)
  settle_failed deploying step before ahead c later e f = absurd (cc)
  settle_failed success step before ahead c later e f = absurd (cc)
  settle_failed failed step before ahead c later e f = f
  settle_failed cancelled step before ahead c later e f = absurd (cc)

  walk-Shape :
      (before ahead : List Step) (c : Context)
      → is_settled c.bundle.status ≡ false
      → All Succeeded before
      → Frontier ahead
      → Shaped (walk u before ahead c)
  unfolding walk after_visit finish_success
  walk-Shape before [] c o b f = (Frontier-done before b, b)
  walk-Shape before (s ∷ ahead) c o b (past h f) =
      let same = visit_other s.deployment.status (session c s) refl (ground arith) (ground arith) in
      rw same (
        settle_success s.deployment.status s before ahead c _ (ground arith)
          (walk-Shape (before ++ s ∷ []) ahead c o (All-append Succeeded before _ b (h, tt)) f))
  walk-Shape before (s ∷ ahead) c o b (stopped h f) =
      let same = visit_other s.deployment.status (session c s) refl (ground arith) (ground arith) in
      rw same (
        settle_failed s.deployment.status s before ahead c _ (ground arith) (
          fail_bundle-Shape u s.deployment c _
            (Broken-before before _ b (failing h (Stopped-already ahead f)))))
  walk-Shape before (s ∷ ahead) c o b (at_work h i) =
      let r = visit u s.deployment.status (session c s) in
      after_visit-Shape r before ahead c _
        (visit_at_work s.deployment.status (session c s) refl h o) o b i
        (λ won o'.
          walk-Shape (before ++ step_of r.1 ∷ []) ahead _ o'
            (All-append Succeeded before _ b (won, tt)) (Frontier-Idle ahead i))
  walk-Shape before (s ∷ ahead) c o b (to_do h i) =
      let r = visit u s.deployment.status (session c s) in
      elim (visit_to_do s.deployment.status (session c s) refl h.0 h.1) [
        | inl same ↦ rw same (Frontier-before before _ b (to_do h i), Tells-open _ _ o)
        | inr attempted ↦ after_visit-Shape r before ahead c _ attempted o b i (λ won o'.
            walk-Shape (before ++ step_of r.1 ∷ []) ahead _ o'
              (All-append Succeeded before _ b (won, tt)) (Frontier-Idle ahead i))
      ]

  -- If a bundle is open, and at most one of its deployments is at work or failed, all before it have
  -- succeeded and none behind it has begun, then after a pass this is so again, also if the pass
  -- raises and whatever Drone answers; and a bundle that the pass ended tells the truth: success if
  -- all have succeeded, failed if one failed and none succeeded, partial failure if one failed and
  -- some succeeded.
  pub advance-Shape :
      (steps : List Step) (c : Context)
      → is_settled c.bundle.status ≡ false
      → Frontier steps
      → Shape (advance u steps c).1 (advance u steps c).2
  unfolding advance
  advance-Shape steps c o f = walk-Shape [] steps c o tt f
