-- ===== src/Orchestrator/Standalone.antt =====
-- A deployment outside of bundles, refreshed on its own (app/services/release_orchestrator.py,
-- `refresh_standalone`).
use release_controller.Prelude.{
  String, Option, none, some, ◌≡◌, refl, Outcome, ok, err, if-both, sym,
}
use mathlib.Core.Path.{subst}
use release_controller.Workflow.{waiting, success}
use release_controller.Deployment.{Session, Upstream, has_status}
use release_controller.Deployment.Invariant.{IsSound}
use release_controller.Deployment.Sound.{refresh-IsSound, promote-IsSound}
use release_controller.Orchestrator.Advance.{Result}
use release_controller.Orchestrator.Operations.{
  OperationError, completed, promoted_or_refreshed, standalone_end, refresh_unless_part,
  refresh_standalone,
}

module _ (u : Upstream) where
  completed-object : (s : Session) → (completed u s).deployment ≡ s.deployment
  completed-object s =
      if-both (λ (t : Session). t.deployment ≡ s.deployment) (has_status s.deployment success) _ _
        (λ _. refl) (λ _. refl)

  -- What a request leaves: a sound deployment, which the row is equal to if the request succeeded.
  pub record Left (r : Outcome OperationError (Unit {0}) × Session) : Type 0 where
    pub sound : IsSound r.1.deployment
    pub saved : r.0 ≡ ok tt → r.1.row ≡ r.1.deployment

  standalone_end-Left : (r : Result × Session) → IsSound r.1.deployment → Left (standalone_end u r)
  standalone_end-Left (err e, s) h = record { sound = h; saved = λ x. absurd (cc) }
  standalone_end-Left (ok x, s) h = record {
    sound = subst IsSound (sym (completed-object s)) h;
    saved = λ _. refl;
  }

  promoted_or_refreshed-IsSound :
      (s : Session)
      → IsSound s.deployment
      → IsSound s.row
      → IsSound (promoted_or_refreshed u s).1.deployment
  promoted_or_refreshed-IsSound s h k =
      if-both (λ (r : Result × Session). IsSound r.1.deployment) (has_status s.deployment waiting) _
        _ (λ _. promote-IsSound u s h k) (λ e. refresh-IsSound u s e h)

  refresh_unless_part-Left :
      (part : Option String) (s : Session)
      → IsSound s.deployment
      → IsSound s.row
      → Left (refresh_unless_part u part s)
  refresh_unless_part-Left (some id) s h k = record { sound = h; saved = λ x. absurd (cc) }
  refresh_unless_part-Left none s h k =
      standalone_end-Left (promoted_or_refreshed u s) (promoted_or_refreshed-IsSound s h k)

  -- If the columns of a deployment and of its row agree with their statuses, then a refresh on its
  -- own leaves a deployment whose columns do, whether it is refused, raises, or promotes or polls;
  -- and if it raises nothing the row is equal to the deployment.
  pub refresh_standalone-Left :
      (s : Session) → IsSound s.deployment → IsSound s.row → Left (refresh_standalone u s)
  unfolding refresh_standalone
  refresh_standalone-Left s h k = refresh_unless_part-Left s.deployment.release_bundle_id s h k
