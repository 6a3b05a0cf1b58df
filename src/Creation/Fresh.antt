-- ===== src/Creation/Fresh.antt =====
-- The first pass over a bundle that `create_bundle` has just written
-- (app/services/release_orchestrator.py).
use release_controller.Prelude.{
  ℕ, String, ◌≡◌, refl, false, Option, List, [], ◌∷◌, All, Outcome, ok, Whenever, Whenever-bind,
}
use release_controller.Workflow.{waiting}
use release_controller.Deployment.{Deployment, Upstream, is_settled}
use release_controller.Orchestrator.{Step, Context}
use release_controller.Orchestrator.Advance.{advance}
use release_controller.Orchestrator.Operations.{OperationError, committed}
use release_controller.Orchestrator.Frontier.{Idle, Frontier-Idle}
use release_controller.Orchestrator.Verdict.{Shape}
use release_controller.Orchestrator.Progress.{advance-Shape}
use release_controller.Orchestrator.Retry.{committed-Shape}
use release_controller.Creation.{CreationError, BundleRequest, Site}
use release_controller.Creation.Bundle.{
  Demands, Started, Creation, steps_of, context_for, run_started, prepare_bundle, create_bundle,
}
use release_controller.Creation.Slots.{Prepared, prepare_bundle-Prepared}

Idle-new :
    (ds : List Deployment)
    → All (λ (d : Deployment). d.status ≡ waiting) ds
    → All Idle (steps_of ds)
Idle-new [] h = tt
Idle-new (d ∷ ds) h = ((rw h.0 refl, rw h.0 refl), Idle-new ds h.1)

module _ (u : Upstream) (site : Site) where
  -- Whatever is asked for and whatever others write meanwhile: the start of a release either raises
  -- before it has committed anything, or leaves a bundle whose steps are in order (succeeded ones,
  -- then at most one at work or failed, then none that has begun) and whose status fits them, whether
  -- its first pass returns or raises.
  pub create_bundle-Shape :
      (payload : BundleRequest) (bundle_id : Option String) (demands : Demands) (k : ℕ)
      (rows : List Deployment)
      → Whenever
          (λ (r : Creation). Shape r.steps r.context)
          (create_bundle u site payload bundle_id demands k rows)
  unfolding create_bundle
  create_bundle-Shape payload bundle_id demands k rows =
      let pass : Started → Outcome OperationError (Unit {0}) × List Step × Context =
        λ started. committed (advance u (steps_of started.draft.made) (context_for started)) in
      let launch : Started → Outcome CreationError Creation =
        λ started. ok (run_started started (pass started)) in
      Whenever-bind (Prepared u site (site.others rows)) (λ (r : Creation). Shape r.steps r.context)
        (prepare_bundle u site payload bundle_id demands k rows) launch
        (prepare_bundle-Prepared u site payload bundle_id demands k rows)
        (λ started p.
          let steps = steps_of started.draft.made in
          let c = context_for started in
          let open_bundle : is_settled c.bundle.status ≡ false = rw p.0 refl in
          committed-Shape u (advance u steps c) (
            advance-Shape u steps c open_bundle
              (Frontier-Idle steps (Idle-new started.draft.made p.1.idle))))
