-- ===== src/Orchestrator/Restart.antt =====
-- What `retry_bundle` restarts, and what it leaves alone (app/services/release_orchestrator.py).
use release_controller.Prelude.{
  ◌≡◌, refl, ap, ◌⊎◌, inl, inr, true, false, none, List, [], ◌∷◌, ◌++◌, map, Bool-cases, ok, err,
}
use release_controller.Workflow.{waiting}
use release_controller.Deployment.{Deployment, Upstream}
use release_controller.Deployment.Slots.{
  has_conflict, IsExclusive, has_conflict-IsExclusive, has_conflict-clash,
}
use release_controller.Deployment.Lifecycle.{reset_for_retry}
use release_controller.Orchestrator.{Step, Context, succeeded}
use release_controller.Orchestrator.Operations.{
  commit_step, reset_step, reset_steps, deployments_of, reopen, restart, integrity_error,
}

-- A deployment at the front again, as a new one would be: nothing of its last attempt is left in its
-- columns, and what says which promotion it is stays.
pub record IsFresh (before after : Deployment) : Type 0 where
  pub waits : after.status ≡ waiting
  pub no_current_stage : after.current_stage ≡ none
  pub no_promotion_build_number : after.promotion_build_number ≡ none
  pub no_failed_stage : after.failed_stage ≡ none
  pub no_error_code : after.error_code ≡ none
  pub no_error_message : after.error_message ≡ none
  pub no_cancel_reason : after.cancel_reason ≡ none
  pub no_poll_error_code : after.poll_error_code ≡ none
  pub no_poll_error_message : after.poll_error_message ≡ none
  pub no_started_at : after.started_at ≡ none
  pub no_failed_at : after.failed_at ≡ none
  pub no_cancelled_at : after.cancelled_at ≡ none
  pub no_finished_at : after.finished_at ≡ none
  pub no_poll_failure : after.poll_failure_count ≡ 0
  pub same_id : after.id ≡ before.id
  pub same_release_bundle_id : after.release_bundle_id ≡ before.release_bundle_id
  pub same_bundle_instance : after.bundle_instance ≡ before.bundle_instance
  pub same_project_id : after.project_id ≡ before.project_id
  pub same_component_id : after.component_id ≡ before.component_id
  pub same_component : after.component ≡ before.component
  pub same_drone_connection_id : after.drone_connection_id ≡ before.drone_connection_id
  pub same_drone_owner : after.drone_owner ≡ before.drone_owner
  pub same_drone_repository : after.drone_repository ≡ before.drone_repository
  pub same_source_build_number : after.source_build_number ≡ before.source_build_number
  pub same_required_promotion_stages :
      after.required_promotion_stages ≡ before.required_promotion_stages
  pub same_commit_sha : after.commit_sha ≡ before.commit_sha
  pub same_branch : after.branch ≡ before.branch
  pub same_target : after.target ≡ before.target
  pub same_requested_by : after.requested_by ≡ before.requested_by
  pub same_created_at : after.created_at ≡ before.created_at

-- Item by item, as the commit would leave it: what has succeeded is kept, all else is fresh, and every
-- row is written.
pub data Restarted : List Step → List Step → Type 0 where
  nothing : Restarted [] []
  kept :
      {s t : Step} {ss ts : List Step}
      → succeeded s ≡ true
      → t.deployment ≡ s.deployment
      → t.row ≡ t.deployment
      → Restarted ss ts
      → Restarted (s ∷ ss) (t ∷ ts)
  fresh :
      {s t : Step} {ss ts : List Step}
      → succeeded s ≡ false
      → IsFresh s.deployment t.deployment
      → t.row ≡ t.deployment
      → Restarted ss ts
      → Restarted (s ∷ ss) (t ∷ ts)

module _ (u : Upstream) where
  reset_step-IsFresh :
      (c : Context) (s : Step)
      → succeeded s ≡ false
      → IsFresh s.deployment (reset_step u c s).0.deployment
  unfolding reset_step reset_for_retry
  reset_step-IsFresh c s e = rw e record {
    waits = refl;
    no_current_stage = refl;
    no_promotion_build_number = refl;
    no_failed_stage = refl;
    no_error_code = refl;
    no_error_message = refl;
    no_cancel_reason = refl;
    no_poll_error_code = refl;
    no_poll_error_message = refl;
    no_started_at = refl;
    no_failed_at = refl;
    no_cancelled_at = refl;
    no_finished_at = refl;
    no_poll_failure = refl;
    same_id = refl;
    same_release_bundle_id = refl;
    same_bundle_instance = refl;
    same_project_id = refl;
    same_component_id = refl;
    same_component = refl;
    same_drone_connection_id = refl;
    same_drone_owner = refl;
    same_drone_repository = refl;
    same_source_build_number = refl;
    same_required_promotion_stages = refl;
    same_commit_sha = refl;
    same_branch = refl;
    same_target = refl;
    same_requested_by = refl;
    same_created_at = refl;
  }

  reset_step-same : (c : Context) (s : Step) → succeeded s ≡ true → (reset_step u c s).0 ≡ s
  unfolding reset_step
  reset_step-same c s e = rw e refl

  reset_steps-Restarted :
      (ss : List Step) (c : Context) → Restarted ss (map commit_step (reset_steps u ss c).0)
  unfolding reset_steps
  reset_steps-Restarted [] c = nothing
  reset_steps-Restarted (s ∷ ss) c =
      let rest = reset_steps-Restarted ss (reset_step u c s).1 in
      elim (Bool-cases (succeeded s)) [
        | inl e ↦
            kept {t = commit_step (reset_step u c s).0} e
              (ap (λ (x : Step). x.deployment) (reset_step-same c s e)) refl rest
        | inr e ↦ fresh e (reset_step-IsFresh c s e) refl rest
      ]

  -- The first commit of a retry would leave each deployment that succeeded as it was, and put every
  -- other one of the bundle back in the queue, with nothing of its last attempt left in its columns.
  -- With that, if two active deployments of the bundle or of others were in one promotion slot, it is
  -- an IntegrityError; otherwise it is what is stored.
  pub restart-Restarted :
      (others : List Deployment) (ss : List Step) (c : Context)
      → (ts : List Step) × Restarted ss ts
        × (((restart u others ss c ≡ err integrity_error)
              × ¬ IsExclusive (deployments_of ts ++ others))
            ⊎ ((c' : Context) × (restart u others ss c ≡ ok (ts, c'))
                × IsExclusive (deployments_of ts ++ others)))
  unfolding restart reopen
  restart-Restarted others ss c =
      let r = reopen u ss c in
      let rows = deployments_of r.0 ++ others in
      (
        r.0,
        reset_steps-Restarted ss _,
        elim (Bool-cases (has_conflict rows)) [
          | inl e ↦ inl (rw e refl, has_conflict-clash rows e)
          | inr e ↦ inr (r.1, rw e refl, has_conflict-IsExclusive rows e)
        ],
      )
