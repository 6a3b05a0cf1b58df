-- ===== src/Deployment/Sending.antt =====
-- What a claimed promotion sends: one request at most (app/services/deployment_service.py, `promote`).
use mathlib.Core.Path.{subst}
use release_controller.Prelude.{
  sym, Bool, true, false, ◌+◌, ◌≤◌, List, length, ◌≡◌, refl, ap, ◌∙◌, arith, ok, err,
}
use release_controller.Workflow.{WorkflowStage}
use release_controller.Registry.{ProjectComponent}
use release_controller.Drone.{DroneBuild, drone, other}
use release_controller.Drone.Builds.{Answer}
use release_controller.Deployment.{
  IsOpen, Session, Upstream, Sent, PlanCheck, plan_holds, plan_changed, plan_refused, plan_crashed,
}
use release_controller.Deployment.Events.{tick, commit}
use release_controller.Deployment.Promotion.{
  is_claimable, sending, on_promotion, on_check, after_ci, dispatch,
}
use release_controller.Deployment.Quiet.{
  is_cancelled, Quiet, fail-Quiet, record_promotion-Quiet, on_drone_error-Quiet,
}

module _ (u : Upstream) where
  -- What a call sends and leaves: one promotion at most; no claimable row, if neither the object nor
  -- the row could be claimed; and an object that still is neither waiting nor cancelled.
  pub record SendsOnce (s : Session) (r : Session) : Type 0 where
    pub at_most_one : length r.sent ≤ length s.sent + 1
    pub row_taken :
        is_claimable s.deployment ≡ false → is_claimable s.row ≡ false → is_claimable r.row ≡ false
    pub kept : is_claimable s.deployment ≡ false → is_claimable r.deployment ≡ false
    pub alive : is_cancelled s.deployment ≡ false → is_cancelled r.deployment ≡ false
    pub still_open : IsOpen s.release → IsOpen r.release

  -- The same for a call that sends nothing.
  pub record SendsNone (s : Session) (r : Session) : Type 0 where
    pub same_sent : r.sent ≡ s.sent
    pub row_taken :
        is_claimable s.deployment ≡ false → is_claimable s.row ≡ false → is_claimable r.row ≡ false
    pub kept : is_claimable s.deployment ≡ false → is_claimable r.deployment ≡ false
    pub alive : is_cancelled s.deployment ≡ false → is_cancelled r.deployment ≡ false
    pub still_open : IsOpen s.release → IsOpen r.release

  Quiet-commit : (s t : Session) → Quiet s t → SendsNone s (commit t)
  Quiet-commit s t q = record {
    same_sent = q.same_sent;
    row_taken = λ k _. q.kept k;
    kept = q.kept;
    alive = q.alive;
    still_open = q.still_open;
  }

  sends_few : (s r : Session) → SendsNone s r → SendsOnce s r
  sends_few s r n = record {
    at_most_one = omega (arith, ap (λ (l : List Sent). length l) n.same_sent);
    row_taken = n.row_taken;
    kept = n.kept;
    alive = n.alive;
    still_open = n.still_open;
  }

  unchanged : (s : Session) → SendsNone s s
  unchanged s = record {
    same_sent = refl;
    row_taken = λ _ k. k;
    kept = λ k. k;
    alive = λ k. k;
    still_open = λ k. k;
  }

  on_promotion-SendsNone :
      (stage : WorkflowStage) (answer : Answer DroneBuild) (s : Session)
      → SendsNone s (on_promotion u stage answer s).1
  unfolding on_promotion
  on_promotion-SendsNone stage (ok b) s = Quiet-commit s _ (record_promotion-Quiet u b stage s)
  on_promotion-SendsNone stage (err (drone e)) s =
      Quiet-commit s _ (on_drone_error-Quiet u e stage s)
  on_promotion-SendsNone stage (err other) s = unchanged s

  sending-length :
      (c : ProjectComponent) (s : Session)
      → (length (sending u c s).sent ≤ length s.sent + 1)
        × ((sending u c s).deployment ≡ s.deployment)
        × ((sending u c s).row ≡ s.row)
        × ((sending u c s).release ≡ s.release)
  sending-length c s = ground arith

  on_check-SendsOnce :
      (c : ProjectComponent) (stage : WorkflowStage) (check : PlanCheck) (s : Session)
      → SendsOnce s (on_check u c stage check s).1
  unfolding on_check
  on_check-SendsOnce c stage plan_changed s =
      sends_few s _ (Quiet-commit s _ (fail-Quiet u stage _ _ s))
  on_check-SendsOnce c stage (plan_refused e) s =
      sends_few s _ (Quiet-commit s _ (on_drone_error-Quiet u e stage s))
  on_check-SendsOnce c stage plan_crashed s = sends_few s s (unchanged s)
  on_check-SendsOnce c stage plan_holds s =
      let (few, same_object, same_row, same_release) = sending-length c s in
      let n = on_promotion-SendsNone stage _ (sending u c s) in
      record {
        at_most_one = omega (arith, few, ap (λ (l : List Sent). length l) n.same_sent);
        row_taken =
            λ k r. n.row_taken (ap is_claimable same_object ∙ k) (ap is_claimable same_row ∙ r);
        kept = λ k. n.kept (ap is_claimable same_object ∙ k);
        alive = λ k. n.alive (ap is_cancelled same_object ∙ k);
        still_open = λ k. n.still_open (subst IsOpen (sym same_release) k);
      }

  after_ci-SendsOnce :
      (c : ProjectComponent) (stage : WorkflowStage) (allowed : Bool) (s : Session)
      → SendsOnce s (after_ci u c stage allowed s).1
  unfolding after_ci
  after_ci-SendsOnce c stage true s =
      let once = on_check-SendsOnce c stage _ (tick s) in
      record {
        at_most_one = once.at_most_one;
        row_taken = once.row_taken;
        kept = once.kept;
        alive = once.alive;
        still_open = once.still_open;
      }
  after_ci-SendsOnce c stage false s = sends_few s _ (Quiet-commit s _ (fail-Quiet u stage _ _ s))

  pub dispatch-SendsOnce :
      (c : ProjectComponent) (stage : WorkflowStage) (s : Session)
      → SendsOnce s (dispatch u c stage s).1
  unfolding dispatch
  dispatch-SendsOnce c stage s =
      let once = after_ci-SendsOnce c stage _ (tick s) in
      record {
        at_most_one = once.at_most_one;
        row_taken = once.row_taken;
        kept = once.kept;
        alive = once.alive;
        still_open = once.still_open;
      }
