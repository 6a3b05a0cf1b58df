-- ===== src/Creation/Bundle.antt =====
-- `create_bundle`, `prepare_standalone` and `promote_standalone` of
-- app/services/release_orchestrator.py.
use release_controller.Prelude.{
  ℕ, suc, ◌+◌, String, Bool, true, false, not, Option, none, some, List, [], ◌∷◌, str_eq, length,
  Outcome, ok, err, ◌>>=◌, or_text,
}
use Prim.Native.String.{◌++◌ as concat}
use release_controller.Workflow.{
  DeploymentStatus, BundleStatus, PublishStatus, WorkflowStage, WorkflowEventType, validate_stage,
  create_release_bundle, stage_started, stage_succeeded, deployment_value,
}
use release_controller.Registry.{ProjectComponent}
use release_controller.Drone.{DroneBuild}
use release_controller.Drone.Builds.{validate_promotable}
use release_controller.Deployment.{Deployment, ReleaseBundle, Session, Upstream}
use release_controller.Deployment.Events.{new_event}
use release_controller.Deployment.Promotion.{promote}
use release_controller.Orchestrator.{Step, Context}
use release_controller.Orchestrator.Advance.{Result, advance}
use release_controller.Orchestrator.Operations.{OperationError, committed}
use release_controller.Creation.{
  ProjectRow, CreationError, build_not_promotable, component_not_selectable, BundleRequest, Site,
  Draft,
}
use release_controller.Creation.Lookup.{project_of}
use release_controller.Creation.Selection.{Selected, target_for, selected_components}
use release_controller.Creation.Insert.{lifted, assert_not_duplicate, Plan, create}

-- What a release plan demands of the sources and of the target, if there is one.
pub record Demands : Type 0 where
  pub expected_commits : Option (String → Option String)
  pub required_target : Option String

abbrev unlike : Option String → String → Bool
unlike none s = true
unlike (some x) s = not (str_eq x s)

abbrev other_commit : Option (String → Option String) → String → String → Bool
other_commit none key sha = false
other_commit (some commits) key sha = unlike (commits key) sha

abbrev other_target : Option String → String → Bool
other_target none target = false
other_target (some wanted) target = not (str_eq target wanted)

abbrev pub Validated : Type 0
Validated = ProjectComponent × DroneBuild

abbrev promotable : Option DroneBuild → Outcome CreationError DroneBuild
promotable none = err build_not_promotable
promotable (some build) = ok build

abbrev refuse_if : Bool → CreationError → Outcome CreationError (Unit {0})
refuse_if true e = err e
refuse_if false e = ok tt

abbrev keys_of : List Validated → List String
keys_of [] = []
keys_of (v ∷ vs) = v.0.key ∷ keys_of vs

-- `",".join(...)`
abbrev joined_keys : List String → String
joined_keys [] = ""
joined_keys (k ∷ []) = k
joined_keys (k ∷ l ∷ ls) = concat k (concat "," (joined_keys (l ∷ ls)))

-- A bundle that has been started: its deployments in order, and what they share.
pub record Started : Type 0 where
  pub bundle : ReleaseBundle
  pub draft : Draft

abbrev pub steps_of : List Deployment → List Step
steps_of [] = []
steps_of (d ∷ ds) = record { deployment = d; row = d } ∷ steps_of ds

abbrev pub context_for : Started → Context
context_for started = record {
  bundle = started.bundle;
  events = started.draft.events;
  sent = [];
  ticks = started.draft.ticks;
}

-- What is left of a request: the table at its first commit, and what the pass over the new bundle
-- makes of it.
pub record Creation : Type 0 where
  pub rows : List Deployment
  pub outcome : Outcome OperationError (Unit {0})
  pub steps : List Step
  pub context : Context

abbrev pub run_started :
    Started → Outcome OperationError (Unit {0}) × List Step × Context → Creation
run_started started (outcome, steps, c) = record {
  rows = started.draft.rows;
  outcome = outcome;
  steps = steps;
  context = c;
}

abbrev session_for : Deployment × Draft → Session
session_for (d, draft) = record {
  deployment = d;
  row = d;
  release = none;
  events = draft.events;
  sent = [];
  ticks = draft.ticks;
}

module _ (u : Upstream) (site : Site) where
  -- One round of the loop over the selection, with the table as it was then.
  unfoldable pub validate_one :
      ProjectRow
      → Demands
      → String
      → Selected
      → ℕ
      → List Deployment
      → Outcome CreationError Validated
  validate_one project demands target item k rows = do
    answer ← lifted (validate_promotable u.client k item.0 item.1)
    build ← promotable answer
    _ ←
        refuse_if (other_commit demands.expected_commits item.0.key build.commit_sha)
          build_not_promotable
    _ ←
        refuse_if (other_target demands.required_target (target_for item.0 target))
          component_not_selectable
    _ ← assert_not_duplicate site project item.0 build.number (target_for item.0 target) rows
    ok (item.0, build)

  unfoldable pub validate_all :
      ProjectRow
      → Demands
      → String
      → List Selected
      → ℕ
      → List Deployment
      → Outcome CreationError (List Validated)
  validate_all project demands target [] k rows = ok []
  validate_all project demands target (item ∷ items) k rows = do
    one ← validate_one project demands target item k rows
    rest ← validate_all project demands target items (suc k) rows
    ok (one ∷ rest)

  abbrev note_event :
      Option ReleaseBundle
      → Option Deployment
      → WorkflowStage
      → WorkflowEventType
      → Option String
      → Draft
      → Draft
  note_event release deployment stage event_type status draft = record draft {
    events = new_event u release deployment stage event_type status none none ∷ draft.events;
  }

  -- The two events of a stage that is over at once.
  unfoldable pub note_stage :
      Option ReleaseBundle → Option Deployment → WorkflowStage → Option String → Draft → Draft
  note_stage release deployment stage status draft =
      note_event release deployment stage stage_succeeded status
        (note_event release deployment stage stage_started status draft)

  abbrev pub plan_for : ReleaseBundle → String → Option String → Validated → Plan
  plan_for bundle target requested_by (c, build) = record {
    component = c;
    build = build;
    target = target_for c target;
    bundle = some bundle;
    requested_by = requested_by;
  }

  unfoldable pub create_all :
      ProjectRow
      → ReleaseBundle
      → String
      → Option String
      → List Validated
      → Draft
      → Outcome CreationError Draft
  create_all project bundle target requested_by [] draft = ok draft
  create_all project bundle target requested_by (v ∷ vs) draft = do
    made ← create u site project (plan_for bundle target requested_by v) draft
    create_all project bundle target requested_by vs
        (note_stage (some bundle) (some made.0) (validate_stage v.0.key) none made.1)

  unfoldable pub new_bundle :
      ℕ → Option String → ProjectRow → String → Option String → List Validated → ReleaseBundle
  new_bundle k bundle_id project target requested_by validated = record {
    id = or_text bundle_id (site.new_id (suc k));
    project_id = some project.id;
    selected_component_keys = some (joined_keys (keys_of validated));
    target = target;
    status = BundleStatus.pending;
    deployment_status = BundleStatus.pending;
    publish_status = PublishStatus.not_published;
    workflow_instance_id = some (site.new_id (suc (suc k)));
    current_stage = some create_release_bundle;
    failed_stage = none;
    error_code = none;
    error_message = none;
    requested_by = requested_by;
    created_at = u.clock (suc (suc (suc k)));
    updated_at = u.clock (suc (suc (suc k)));
    started_at = some (u.clock k);
    failed_at = none;
    finished_at = none;
  }

  -- What `create_bundle` writes for the validated components, after `k` questions.
  unfoldable pub write_bundle :
      ProjectRow
      → ReleaseBundle
      → String
      → Option String
      → List Validated
      → ℕ
      → List Deployment
      → Outcome CreationError Started
  write_bundle project bundle target requested_by validated k rows = do
    draft ←
        create_all project bundle target requested_by validated
          (record { rows = site.others rows; made = []; events = []; ticks = k })
    ok (record {
      bundle = bundle;
      draft = note_stage (some bundle) none create_release_bundle none draft;
    })

  -- `create_bundle` from the validation of the selection to its first commit.
  unfoldable pub validate_and_write :
      BundleRequest
      → Option String
      → Demands
      → ProjectRow
      → List Selected
      → ℕ
      → List Deployment
      → Outcome CreationError Started
  validate_and_write payload bundle_id demands project selection k rows = do
    validated ←
        validate_all project demands (or_text payload.target project.default_target) selection k
          rows
    write_bundle project
        (new_bundle (k + length selection) bundle_id project
          (or_text payload.target project.default_target) payload.requested_by validated)
        (or_text payload.target project.default_target) payload.requested_by validated
        (k + length selection + 4) rows

  -- `create_bundle` up to its first commit, over the table `rows`: what an exception leaves behind is
  -- rolled back.
  unfoldable pub prepare_bundle :
      BundleRequest → Option String → Demands → ℕ → List Deployment → Outcome CreationError Started
  prepare_bundle payload bundle_id demands k rows = do
    project ← project_of site.projects payload.project_id
    selection ← selected_components project payload
    validate_and_write payload bundle_id demands project selection k rows

  unfoldable pub create_bundle :
      BundleRequest → Option String → Demands → ℕ → List Deployment → Outcome CreationError Creation
  create_bundle payload bundle_id demands k rows = do
    started ← prepare_bundle payload bundle_id demands k rows
    ok (
        run_started started
          (committed (advance u (steps_of started.draft.made) (context_for started))))

  -- `prepare_standalone`
  unfoldable pub prepare_standalone :
      ProjectRow
      → ProjectComponent
      → DroneBuild
      → String
      → Option String
      → ℕ
      → List Deployment
      → Outcome CreationError (Deployment × Draft)
  prepare_standalone project c build target requested_by k rows = do
    _ ← assert_not_duplicate site project c build.number target rows
    made ←
        create u site project
          (record {
            component = c;
            build = build;
            target = target;
            bundle = none;
            requested_by = requested_by;
          })
          (record { rows = site.others rows; made = []; events = []; ticks = k })
    ok (
      made.0,
      note_stage none (some made.0) (validate_stage c.key)
          (some (deployment_value DeploymentStatus.waiting)) made.1,
    )

  -- `promote_standalone`: the table at its first commit, and the promotion of the new deployment.
  unfoldable pub promote_standalone :
      ProjectRow
      → ProjectComponent
      → ℕ
      → Option String
      → Option String
      → ℕ
      → List Deployment
      → Outcome CreationError (List Deployment × (Result × Session))
  promote_standalone project c build_number target requested_by k rows = do
    answer ← lifted (validate_promotable u.client k c build_number)
    build ← promotable answer
    made ←
        prepare_standalone project c build (target_for c (or_text target project.default_target))
          requested_by (suc k) rows
    ok (made.1.rows, promote u (session_for made))
