-- ===== src/Release/Machine.antt =====
-- The state machine of a release: its diagram, and what its time stamps say of its status.
use release_controller.Prelude.{ℕ, String, Bool, true, false, Option, none, some, ok, ◌≡◌, arith}
use release_controller.Release.{
  ReleaseStatus, pending, approved, rejected, deploying, success, failed, Release, create,
}
use release_controller.Release.Transition.{Action, approving, perform}

infix 40 ◌⟶◌ ◌⟶*◌
pub data ◌⟶◌ : ReleaseStatus → ReleaseStatus → Type 0 where
  approval : pending ⟶ approved
  rejection : pending ⟶ rejected
  start : approved ⟶ deploying
  succeed : deploying ⟶ success
  fail : deploying ⟶ failed

pub data ◌⟶*◌ : ReleaseStatus → ReleaseStatus → Type 0 where
  here : {s : ReleaseStatus} → s ⟶* s
  further : {s t u : ReleaseStatus} → s ⟶ t → t ⟶* u → s ⟶* u

ruleset edges = (approval, rejection, start, succeed, fail)

-- A use case that applies reports the status it found and moves along an edge of the diagram.
pub perform-⟶ :
    (a : Action) (r r' : Release) (expected : ReleaseStatus)
    → perform a r ≡ ok (r', expected)
    → (expected ≡ r.status) × (r.status ⟶ r'.status)
unfolding perform
perform-⟶ (approving by now) r r' expected h = grind (arith, edges)
perform-⟶ _ r r' expected h = grind (arith, edges)

abbrev is_set {ℓ} : {A : Type ℓ} → Option A → Bool
is_set none = false
is_set (some _) = true

abbrev was_approved : ReleaseStatus → Bool
was_approved pending = false
was_approved rejected = false
was_approved _ = true

abbrev was_rejected : ReleaseStatus → Bool
was_rejected rejected = true
was_rejected _ = false

abbrev was_started : ReleaseStatus → Bool
was_started deploying = true
was_started success = true
was_started failed = true
was_started _ = false

abbrev was_finished : ReleaseStatus → Bool
was_finished success = true
was_finished failed = true
was_finished _ = false

-- Each time stamp is set exactly in the statuses that lie behind its event.
pub record IsConsistent (r : Release) : Type 0 where
  pub approval_stamp : is_set r.approved_at ≡ was_approved r.status
  pub rejection_stamp : is_set r.rejected_at ≡ was_rejected r.status
  pub start_stamp : is_set r.deploy_started_at ≡ was_started r.status
  pub finish_stamp : is_set r.deploy_finished_at ≡ was_finished r.status

pub create-IsConsistent :
    (id repository branch commit_sha environment : String) (message : Option String) (now : ℕ)
    → IsConsistent (create id repository branch commit_sha environment message now)
unfolding create
create-IsConsistent id repository branch commit_sha environment message now = ground arith

pub perform-IsConsistent :
    (a : Action) (r r' : Release) (expected : ReleaseStatus)
    → perform a r ≡ ok (r', expected)
    → IsConsistent r
    → IsConsistent r'
unfolding perform
perform-IsConsistent (approving by now) r r' expected h c = ground arith
perform-IsConsistent _ r r' expected h c = ground arith
