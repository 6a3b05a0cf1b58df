-- ===== src/Orchestrator/Parity.antt =====
-- The poll of the use cases (app/usecase/orchestration/_promotion.py, `refresh`) against that of the
-- service (app/services/deployment_service.py, `refresh`).
use release_controller.Prelude.{
  ℕ, suc, String, ◌≡◌, refl, sym, ◌∙◌, inl, inr, Option, none, some, arith, Bool-cases, ok, err,
}
use release_controller.Workflow.{WorkflowStage}
use release_controller.Registry.{ProjectComponent}
use release_controller.Drone.{DroneBuild, CallError}
use release_controller.Drone.Builds
use mathlib.Core.Path.{subst}
use release_controller.Drone.Builds.{Answer}
use release_controller.Deployment.{Text, Deployment, Session, Upstream, is_terminal}
use release_controller.Deployment.Events.{tick}
use release_controller.Deployment.Lifecycle.{active_stage, succeed, fail}
use release_controller.Deployment.Polling.{
  recovered, record_poll_failure, clear_poll_failure, timed_out,
}
use release_controller.Deployment.Promotion.{record_promotion}
use release_controller.Deployment.Refreshing.{
  ask, stages_rejected, on_found, reconcile_promotion, judge, note_status, on_build, asked_build,
  poll, look_up, refresh_running, refresh,
}
use release_controller.Orchestrator.Polls.{
  back, classified, end_failed, end_success, note_failure, note_recovery, adopt, on_search,
  conclude, on_poll, ask_drone, refresh_in_flight, refresh_deployment,
}

-- What both decide about a deployment: its status, its build, its error and the stage that failed;
-- and that the stages it requires are those of before.
pub record Alike (d d' : Deployment) : Type 0 where
  pub same_status : d.status ≡ d'.status
  pub same_build : d.promotion_build_number ≡ d'.promotion_build_number
  pub same_error : d.error_code ≡ d'.error_code
  pub same_stage : d.failed_stage ≡ d'.failed_stage
  pub same_required : d.required_promotion_stages ≡ d'.required_promotion_stages

abbrev AlikeIn : Session → Session → Type 0
AlikeIn s s' = Alike s.deployment s'.deployment

Alike-same : (d : Deployment) → Alike d d
Alike-same d = record {
  same_status = refl;
  same_build = refl;
  same_error = refl;
  same_stage = refl;
  same_required = refl;
}

module _ (u : Upstream) (describe : CallError → Text) where
  note_failure-Alike :
      (stage : WorkflowStage) (code : String) (message : Text) (s : Session)
      → AlikeIn
          (note_failure u describe stage (code, message) s)
          (record_poll_failure u stage code s)
  unfolding note_failure record_poll_failure
  note_failure-Alike stage code message s = ground arith

  conclude-Alike :
      (build : DroneBuild) (status : String) (stage : WorkflowStage) (s s' : Session)
      → AlikeIn s s'
      → s'.deployment.required_promotion_stages ≡ none
      → AlikeIn (conclude u describe build status stage s) (judge u build status stage s')
  unfolding conclude judge end_failed end_success succeed fail stages_rejected
  conclude-Alike build status stage s s' h free = ground arith

  back-Alike :
      (stage : WorkflowStage) (code : Option String) (s : Session)
      → AlikeIn (back u describe stage code s) (recovered u stage code s)
  back-Alike stage none s = Alike-same s.deployment
  back-Alike stage (some code) s = record {
    same_status = refl;
    same_build = refl;
    same_error = refl;
    same_stage = refl;
    same_required = refl;
  }

  note_recovery-Alike :
      (stage : WorkflowStage) (s : Session)
      → AlikeIn (note_recovery u describe stage s) (clear_poll_failure u stage s)
  unfolding note_recovery clear_poll_failure
  note_recovery-Alike stage s = back-Alike stage s.deployment.poll_error_code s

  recovered_required :
      (stage : WorkflowStage) (s : Session)
      → (clear_poll_failure u stage s).deployment.required_promotion_stages
        ≡ s.deployment.required_promotion_stages
  unfolding clear_poll_failure
  recovered_required stage s = ground arith

  on_search-Alike :
      (stage : WorkflowStage) (answer : Answer (Option DroneBuild)) (s : Session)
      → AlikeIn
          (on_search u describe stage (classified u describe answer) s)
          (on_found u stage answer s)
  unfolding on_search on_found classified adopt record_promotion
  on_search-Alike stage (err e) s = note_failure-Alike stage _ (describe e) s
  on_search-Alike stage (ok none) s = note_failure-Alike stage _ _ s
  on_search-Alike stage (ok (some promotion)) s =
      let back = note_recovery-Alike stage s in
      record {
        same_status = refl;
        same_build = refl;
        same_error = back.same_error;
        same_stage = back.same_stage;
        same_required = back.same_required;
      }

  on_poll-Alike :
      (stage : WorkflowStage) (answer : Answer DroneBuild) (s : Session)
      → s.deployment.required_promotion_stages ≡ none
      → AlikeIn
          (on_poll u describe stage (classified u describe answer) s)
          (on_build u stage answer s)
  unfolding on_poll on_build classified note_status
  on_poll-Alike stage (err e) s free = note_failure-Alike stage _ (describe e) s
  on_poll-Alike stage (ok build) s free =
      let back = note_recovery-Alike stage s in
      conclude-Alike build (u.lower build.status) stage _ _
        (record {
          same_status = back.same_status;
          same_build = back.same_build;
          same_error = back.same_error;
          same_stage = back.same_stage;
          same_required = back.same_required;
        })
        (recovered_required stage s ∙ free)

  ask-known :
      {A : Type 0} (call : ℕ → ProjectComponent → Answer A) (c : ProjectComponent) (s : Session)
      → u.component_row s.ticks s.deployment.component_id ≡ some c
      → ask u call s ≡ call (suc s.ticks) c
  ask-known call c s known = rw (known, ask) refl

  look_up-Alike :
      (c : ProjectComponent) (stage : WorkflowStage) (number : Option ℕ) (s : Session)
      → u.component_row s.ticks s.deployment.component_id ≡ some c
      → s.deployment.required_promotion_stages ≡ none
      → ((ask_drone u describe (some c) stage number s).0 ≡ ok tt)
        × AlikeIn (ask_drone u describe (some c) stage number s).1 (look_up u stage number s)
  unfolding ask_drone look_up reconcile_promotion poll asked_build
  look_up-Alike c stage none s known free =
      let d = s.deployment in
      let find : ℕ → ProjectComponent → Answer (Option DroneBuild) =
        λ n c. Builds.find_promotion_build u.client n c d.source_build_number d.target in
      let answer = find (suc s.ticks) c in
      (
        refl,
        subst
            (λ a.
              AlikeIn (on_search u describe stage (classified u describe answer) (tick (tick s)))
                (on_found u stage a (tick (tick s))))
            (sym (ask-known find c s known)) (on_search-Alike stage answer (tick (tick s))),
      )
  look_up-Alike c stage (some number) s known free =
      let get : ℕ → ProjectComponent → Answer DroneBuild =
        λ n c. Builds.get_build u.client n c number in
      let answer = get (suc s.ticks) c in
      (
        refl,
        subst
            (λ a.
              AlikeIn (on_poll u describe stage (classified u describe answer) (tick (tick s)))
                (on_build u stage a (tick (tick s))))
            (sym (ask-known get c s known)) (on_poll-Alike stage answer (tick (tick s)) free),
      )

  -- If a deployment requires no stages and its component is registered, then the poll of the use cases
  -- raises nothing, and it leaves the status, the build, the error and the failed stage that the poll
  -- of the service leaves, whatever Drone answers.
  pub refresh_deployment-Alike :
      (s : Session) (c : ProjectComponent)
      → u.component_row (suc s.ticks) s.deployment.component_id ≡ some c
      → s.deployment.required_promotion_stages ≡ none
      → ((refresh_deployment u describe s).0 ≡ ok tt)
        × AlikeIn (refresh_deployment u describe s).1 (refresh u s)
  unfolding refresh_deployment refresh refresh_in_flight refresh_running end_failed fail
  refresh_deployment-Alike s c known free = elim (Bool-cases (is_terminal s.deployment)) [
    | inl over ↦ rw over (refl, Alike-same s.deployment)
    | inr runs ↦ elim (Bool-cases (timed_out u s)) [
      | inl late ↦ ground arith
      | inr early ↦ rw runs rw early rw known (
          look_up-Alike c (active_stage s.deployment) s.deployment.promotion_build_number (tick s)
            known free)
    ]
  ]
