-- ===== src/Orchestrator/Verdict.antt =====
-- What the status of a bundle says of its steps (app/services/release_orchestrator.py).
use release_controller.Prelude.{
  true, false, List, [], ◌∷◌, any, All, ◌≡◌, arith, none, some, Bool-cases, inl, inr, any-head,
  any-tail,
}
use release_controller.Workflow.{BundleStatus}
use release_controller.Deployment.{
  Text, Deployment, ReleaseBundle, Session, Upstream, IsOpen, is_settled,
}
use release_controller.Orchestrator.{
  cancellation_reason, or_else, Option, Step, Context, context_of, succeeded, has_failed,
  failure_status, stop_bundle, cancel_all, fail_bundle,
}
use release_controller.Orchestrator.Frontier.{
  Succeeded, Frontier, Broken, further, failing, cancel_waiting_other, fail_bundle-Frontier,
}

-- A bundle that has ended says how: all succeeded, or one failed and some or none succeeded.
abbrev pub Tells : BundleStatus → List Step → Type 0
Tells BundleStatus.success steps = All Succeeded steps
Tells BundleStatus.failed steps = (any has_failed steps ≡ true) × (any succeeded steps ≡ false)
Tells BundleStatus.partial_failure steps =
    (any has_failed steps ≡ true) × (any succeeded steps ≡ true)
Tells _ steps = Unit

-- The shape of the steps, and what the bundle says of them.
abbrev pub Shape : List Step → Context → Type 0
Shape steps c = Frontier steps × Tells c.bundle.status steps

pub Tells-open :
    (status : BundleStatus) (steps : List Step) → is_settled status ≡ false → Tells status steps
Tells-open BundleStatus.pending steps e = tt
Tells-open BundleStatus.promoting steps e = tt
Tells-open BundleStatus.deploying steps e = tt
Tells-open BundleStatus.success steps e = absurd (ground arith)
Tells-open BundleStatus.failed steps e = absurd (ground arith)
Tells-open BundleStatus.partial_failure steps e = absurd (ground arith)

open_or_else :
    (r : Option ReleaseBundle) (b : ReleaseBundle)
    → IsOpen r
    → is_settled b.status ≡ false
    → is_settled (or_else r b).status ≡ false
open_or_else none b o e = e
open_or_else (some _) b o e = o

pub open_after :
    (c : Context) (s : Session)
    → IsOpen s.release
    → is_settled c.bundle.status ≡ false
    → is_settled (context_of c s).bundle.status ≡ false
open_after c s o e = open_or_else s.release c.bundle o e

Tells-failure :
    (steps : List Step) → any has_failed steps ≡ true → Tells (failure_status steps) steps
Tells-failure steps h = elim (Bool-cases (any succeeded steps)) [
  | inl e ↦ rw e (h, e)
  | inr e ↦ rw e (h, e)
]

module _ (u : Upstream) where
  cancel_all-fails :
      (reason : Text) (c : Context) (ss : List Step)
      → Broken ss
      → any has_failed (cancel_all u reason c ss).0 ≡ true
  unfolding cancel_all
  cancel_all-fails reason c [] b = elim b [ ]
  cancel_all-fails reason c (s ∷ ss) (further h b) =
      let same = cancel_waiting_other u reason c s (ground arith) in
      rw same (any-tail has_failed s (cancel_all u reason c ss).0 (cancel_all-fails reason c ss b))
  cancel_all-fails reason c (s ∷ ss) (failing h b) =
      let same = cancel_waiting_other u reason c s (ground arith) in
      rw same (any-head has_failed s (cancel_all u reason c ss).0 h)

  pub fail_bundle-Shape :
      (d : Deployment) (c : Context) (ss : List Step)
      → Broken ss
      → Shape (fail_bundle u d ss c).0 (fail_bundle u d ss c).1
  unfolding fail_bundle stop_bundle
  fail_bundle-Shape d c ss b = (
    fail_bundle-Frontier u d c ss b,
    Tells-failure (cancel_all u (cancellation_reason d) c ss).0
        (cancel_all-fails (cancellation_reason d) c ss b),
  )
