-- ===== src/Orchestrator/Operations.antt =====
-- The operations on a bundle, and on a deployment outside of bundles
-- (app/services/release_orchestrator.py: `refresh_bundle`, `retry_bundle`, `refresh_standalone`).
-- A bundle's row and the rows of its steps are loaded by `get_bundle`, and written by the commit.
use Prim.Native.Nat.{Ordering}
use Prim.Native.String.{compare}
use release_controller.Prelude.{
  ℕ, suc, String, Bool, true, false, not, Option, none, some, List, [], ◌∷◌, ◌++◌, map, any,
  if◌then◌else◌, Outcome, ok, err,
}
use release_controller.Workflow.{
  BundleStatus, PublishStatus, bundle_value, success, waiting, create_release_bundle,
  deployment_retried, wait_publish_request, stage_started, complete_deployment, release_completed,
}
use release_controller.Deployment.{lit, Text, Deployment, Session, Upstream, has_status, is_settled}
use release_controller.Deployment.Slots.{has_conflict}
use release_controller.Deployment.Events.{commit, emit}
use release_controller.Deployment.Lifecycle.{reset_for_retry}
use release_controller.Deployment.Promotion.{PromoteError, promote}
use release_controller.Deployment.Refreshing.{refresh}
use release_controller.Orchestrator.{
  Step, Context, session, step_of, context_of, succeeded, emit_release,
}
use release_controller.Orchestrator.Advance.{Result, advance}

-- What the operations raise: the three refusals to retry, the refusal to refresh a bundle's part
-- on its own, the IntegrityError of `uq_deployments_active_promotion`, and what `promote` raises.
pub data OperationError : Type 0 where
  not_a_failure : BundleStatus → OperationError
  already_published every_component_succeeded part_of_bundle integrity_error : OperationError
  from_promote : PromoteError → OperationError

abbrev pub commit_step : Step → Step
commit_step step = record step { row = step.deployment }

-- `db.commit()` at the end, which an exception skips.
abbrev pub committed :
    Result × List Step × Context → Outcome OperationError (Unit {0}) × List Step × Context
committed (ok x, steps, c) = (ok x, map commit_step steps, c)
committed (err e, steps, c) = (err (from_promote e), steps, c)

-- `sorted(...)` of strings, by insertion.
unfoldable pub insert : String → List String → List String
insert x [] = x ∷ []
insert x (y ∷ ys) =
    let rest = insert x ys in elim (compare y x) [ Ordering.gt ↦ x ∷ y ∷ ys | _ ↦ y ∷ rest ]

unfoldable pub sorted : List String → List String
sorted [] = []
sorted (x ∷ xs) = insert x (sorted xs)

-- `", ".join(...)`
unfoldable pub join_words : List String → Text
join_words [] = []
join_words (x ∷ []) = lit x ∷ []
join_words (x ∷ y ∷ ys) = lit x ∷ lit ", " ∷ join_words (y ∷ ys)

abbrev pub deployments_of : List Step → List Deployment
deployments_of [] = []
deployments_of (s ∷ ss) = s.deployment ∷ deployments_of ss

abbrev pub components_to_retry : List Step → List String
components_to_retry [] = []
components_to_retry (s ∷ ss) =
    let rest = components_to_retry ss in if succeeded s then rest else s.deployment.component ∷ rest

abbrev pub is_failure : BundleStatus → Bool
is_failure BundleStatus.failed = true
is_failure BundleStatus.partial_failure = true
is_failure _ = false

abbrev pub is_not_published : PublishStatus → Bool
is_not_published PublishStatus.not_published = true
is_not_published _ = false

module _ (u : Upstream) where
  unfoldable pub refresh_bundle :
      List Step → Context → Outcome OperationError (Unit {0}) × List Step × Context
  refresh_bundle steps c =
      if is_settled c.bundle.status then (ok tt, steps, c) else committed (advance u steps c)

  -- One round of the loop over the deployments to retry.
  unfoldable pub reset_step : Context → Step → Step × Context
  reset_step c step =
      if succeeded step
      then (step, c)
      else (let s = reset_for_retry u (session c step) in (step_of s, context_of c s))

  unfoldable pub reset_steps : List Step → Context → List Step × Context
  reset_steps [] c = ([], c)
  reset_steps (step ∷ steps) c =
      let (step', c') = reset_step c step in
      let (steps', c'') = reset_steps steps c' in (step' ∷ steps', c'')

  -- The writes of `retry_bundle` on the bundle; `now` was read before the loop.
  abbrev pub reopened : ℕ → Context → Context
  reopened now c = record c {
    bundle = record c.bundle {
      status = BundleStatus.pending;
      deployment_status = BundleStatus.pending;
      current_stage = some create_release_bundle;
      failed_stage = none;
      error_code = none;
      error_message = none;
      failed_at = none;
      finished_at = none;
      updated_at = now;
    };
  }

  -- What `retry_bundle` has done when it commits for the first time, if that commit succeeds.
  unfoldable pub reopen : List Step → Context → List Step × Context
  reopen steps c =
      let (steps', c') = reset_steps steps (record c { ticks = suc c.ticks }) in
      (
        map commit_step steps',
        emit_release u create_release_bundle deployment_retried
            (some (bundle_value BundleStatus.pending))
            (some (lit "Retrying " ∷ join_words (sorted (components_to_retry steps))))
            (reopened (u.clock c.ticks) c'),
      )

  -- The first commit of `retry_bundle`: the UPDATEs of the deployments meet the unique index, which
  -- counts the rows of all other deployments too, `others`.
  unfoldable pub restart :
      List Deployment → List Step → Context → Outcome OperationError (List Step × Context)
  restart others steps c =
      let (steps', c') = reopen steps c in
      if has_conflict (deployments_of steps' ++ others)
      then err integrity_error
      else ok (steps', c')

  -- An exception of that commit rolls everything back.
  abbrev pub after_restart :
      List Step
      → Context
      → Outcome OperationError (List Step × Context)
      → Outcome OperationError (Unit {0}) × List Step × Context
  after_restart steps c (err e) = (err e, steps, c)
  after_restart steps c (ok (steps', c')) = committed (advance u steps' c')

  unfoldable pub retry_bundle :
      List Deployment
      → List Step
      → Context
      → Outcome OperationError (Unit {0}) × List Step × Context
  retry_bundle others steps c =
      if not (is_failure c.bundle.deployment_status)
      then (err (not_a_failure c.bundle.deployment_status), steps, c)
      else if not (is_not_published c.bundle.publish_status)
      then (err already_published, steps, c)
      else if not (any (λ s. not (succeeded s)) steps)
      then (err every_component_succeeded, steps, c)
      else after_restart steps c (restart others steps c)

  -- The two events that a deployment on its own ends with.
  abbrev pub completed : Session → Session
  completed s =
      if has_status s.deployment success
      then emit u wait_publish_request stage_started none none
          (emit u complete_deployment release_completed none none s)
      else s

  abbrev pub promoted_or_refreshed : Session → Result × Session
  promoted_or_refreshed s =
      if has_status s.deployment waiting then promote u s else (ok tt, refresh u s)

  abbrev pub standalone_end : Result × Session → Outcome OperationError (Unit {0}) × Session
  standalone_end (err e, s) = (err (from_promote e), s)
  standalone_end (ok x, s) = (ok x, commit (completed s))

  abbrev pub refresh_unless_part :
      Option String → Session → Outcome OperationError (Unit {0}) × Session
  refresh_unless_part (some _) s = (err part_of_bundle, s)
  refresh_unless_part none s = standalone_end (promoted_or_refreshed s)

  unfoldable pub refresh_standalone : Session → Outcome OperationError (Unit {0}) × Session
  refresh_standalone s = refresh_unless_part s.deployment.release_bundle_id s
