-- ===== src/Deployment/Quiet.antt =====
-- What no operation but `promote` does: send a promotion, or make a deployment claimable.
use release_controller.Workflow.{cancelled}
use release_controller.Deployment.{IsOpen, Deployment, has_status}
use release_controller.Prelude.{
  Bool, ℕ, String, false, Option, none, some, ◌≡◌, refl, ◌∙◌, arith, if-both, str_eq, ok, err,
}
use release_controller.Workflow.{WorkflowStage}
use release_controller.Drone.{error_code, DroneBuild, DroneError}
use release_controller.Drone.Builds.{Answer}
use release_controller.Deployment.{Text, Session, Upstream, is_terminal}
use release_controller.Deployment.Events.{tick}
use release_controller.Prelude.{ok, err}
use release_controller.Deployment.Lifecycle.{succeed, fail}
use release_controller.Deployment.Polling.{record_poll_failure, clear_poll_failure, timed_out}
use release_controller.Deployment.Promotion.{
  is_unconfirmed, on_drone_error, is_claimable, mark_promotion_unconfirmed, record_promotion,
}
use release_controller.Deployment.Refreshing.{
  is_running, stages_rejected, judge, note_status, on_build, on_found, look_up, poll,
  reconcile_promotion, refresh_running, refresh,
}

abbrev pub is_cancelled : Deployment → Bool
is_cancelled d = has_status d cancelled

-- From `s` to `t` no promotion went out, and a deployment that could not be claimed still cannot.
pub record Quiet (s t : Session) : Type 0 where
  pub same_sent : t.sent ≡ s.sent
  pub kept : is_claimable s.deployment ≡ false → is_claimable t.deployment ≡ false
  pub alive : is_cancelled s.deployment ≡ false → is_cancelled t.deployment ≡ false
  pub still_open : IsOpen s.release → IsOpen t.release

Quiet-refl : (s : Session) → Quiet s s
Quiet-refl s = record { same_sent = refl; kept = λ e. e; alive = λ e. e; still_open = λ e. e }

module _ (u : Upstream) where
  pub fail-Quiet :
      (stage : WorkflowStage) (code : String) (message : Text) (s : Session)
      → Quiet s (fail u stage code message s)
  unfolding fail
  fail-Quiet stage code message s = ground arith

  succeed-Quiet : (s : Session) → Quiet s (succeed u s)
  unfolding succeed
  succeed-Quiet s = ground arith

  pub mark-Quiet :
      (e : DroneError) (stage : WorkflowStage) (s : Session)
      → Quiet s (mark_promotion_unconfirmed u e stage s)
  unfolding mark_promotion_unconfirmed
  mark-Quiet e stage s = record {
    same_sent = refl;
    kept = λ k. k;
    alive = λ k. k;
    still_open = λ k. k;
  }

  pub record_promotion-Quiet :
      (b : DroneBuild) (stage : WorkflowStage) (s : Session)
      → Quiet s (record_promotion u b stage s)
  unfolding record_promotion
  record_promotion-Quiet b stage s = record {
    same_sent = refl;
    kept = λ k. refl;
    alive = λ k. refl;
    still_open = λ k. ground arith;
  }

  record_poll_failure-Quiet :
      (stage : WorkflowStage) (code : String) (s : Session)
      → Quiet s (record_poll_failure u stage code s)
  unfolding record_poll_failure
  record_poll_failure-Quiet stage code s = ground arith

  clear_poll_failure-Quiet :
      (stage : WorkflowStage) (s : Session) → Quiet s (clear_poll_failure u stage s)
  unfolding clear_poll_failure
  clear_poll_failure-Quiet stage s = ground arith

  judge-Quiet :
      (build : DroneBuild) (status : String) (stage : WorkflowStage) (s : Session)
      → Quiet s (judge u build status stage s)
  unfolding judge
  judge-Quiet build status stage s =
      if-both (Quiet s) (is_running status) _ _
        (λ _. record { same_sent = refl; kept = λ k. refl; alive = λ k. refl; still_open = λ k. k })
        (λ _.
          if-both (Quiet s) (str_eq status "success") _ _
            (λ _.
              if-both (Quiet s) (stages_rejected s.deployment build) _ _
                (λ _. fail-Quiet stage _ _ s) (λ _. succeed-Quiet s))
            (λ _. fail-Quiet stage _ _ s))

  on_build-Quiet :
      (stage : WorkflowStage) (answer : Answer DroneBuild) (s : Session)
      → Quiet s (on_build u stage answer s)
  unfolding on_build note_status
  on_build-Quiet stage (err x) s = record_poll_failure-Quiet stage _ s
  on_build-Quiet stage (ok build) s =
      let cleared = clear_poll_failure-Quiet stage s in
      let judged =
        judge-Quiet build (u.lower build.status) stage
          (note_status u build (u.lower build.status) stage (clear_poll_failure u stage s)) in
      record {
        same_sent = judged.same_sent ∙ cleared.same_sent;
        kept = λ k. judged.kept (cleared.kept k);
        alive = λ k. judged.alive (cleared.alive k);
        still_open = λ k. judged.still_open (cleared.still_open k);
      }

  on_found-Quiet :
      (stage : WorkflowStage) (answer : Answer (Option DroneBuild)) (s : Session)
      → Quiet s (on_found u stage answer s)
  unfolding on_found
  on_found-Quiet stage (err x) s = record_poll_failure-Quiet stage _ s
  on_found-Quiet stage (ok none) s = record_poll_failure-Quiet stage _ s
  on_found-Quiet stage (ok (some b)) s =
      let cleared = clear_poll_failure-Quiet stage s in
      let noted = record_promotion-Quiet b stage _ in
      record {
        same_sent = noted.same_sent ∙ cleared.same_sent;
        kept = λ k. noted.kept (cleared.kept k);
        alive = λ k. noted.alive (cleared.alive k);
        still_open = λ k. noted.still_open (cleared.still_open k);
      }

  look_up-Quiet :
      (stage : WorkflowStage) (number : Option ℕ) (s : Session)
      → Quiet s (look_up u stage number (tick s))
  unfolding look_up poll reconcile_promotion
  look_up-Quiet stage none s =
      let q = on_found-Quiet stage _ _ in
      record { same_sent = q.same_sent; kept = q.kept; alive = q.alive; still_open = q.still_open }
  look_up-Quiet stage (some number) s =
      let q = on_build-Quiet stage _ _ in
      record { same_sent = q.same_sent; kept = q.kept; alive = q.alive; still_open = q.still_open }

  refresh_running-Quiet : (s : Session) → Quiet s (refresh_running u s)
  unfolding refresh_running
  refresh_running-Quiet s =
      if-both (Quiet s) (timed_out u s) _ _
        (λ _.
          let q = fail-Quiet _ _ _ (tick s) in
          record {
            same_sent = q.same_sent;
            kept = q.kept;
            alive = q.alive;
            still_open = q.still_open;
          })
        (λ _. look_up-Quiet _ _ s)

  pub refresh-Quiet : (s : Session) → Quiet s (refresh u s)
  unfolding refresh
  refresh-Quiet s =
      if-both (Quiet s) (is_terminal s.deployment) _ _ (λ _. Quiet-refl s)
        (λ _. refresh_running-Quiet s)

  pub on_drone_error-Quiet :
      (e : DroneError) (stage : WorkflowStage) (s : Session) → Quiet s (on_drone_error u e stage s)
  unfolding on_drone_error
  on_drone_error-Quiet e stage s =
      if-both (Quiet s) (is_unconfirmed (error_code e)) _ _ (λ _. mark-Quiet e stage s)
        (λ _. fail-Quiet stage _ _ s)
