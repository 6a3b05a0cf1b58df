-- ===== src/Deployment/Events.antt =====
-- OrchestrationWorkflowService.append (app/services/workflow_service.py), the clock, and commit.
use release_controller.Prelude.{suc, String, Option, none, some, ◌∷◌}
use release_controller.Workflow.{WorkflowStage, WorkflowEventType, deployment_value}
use release_controller.Deployment.{
  Text, Deployment, ReleaseBundle, WorkflowEvent, Session, Upstream,
}

-- One question was put to the world.
abbrev pub tick : Session → Session
tick s = record s { ticks = suc s.ticks }

-- `db.commit()`: what this session wrote to the object is the row now.
abbrev pub commit : Session → Session
commit s = record s { row = s.deployment }

abbrev pub bundle_id_of : Option ReleaseBundle → Option Deployment → Option String
bundle_id_of (some b) _ = some b.id
bundle_id_of none (some d) = d.release_bundle_id
bundle_id_of none none = none

abbrev pub instance_of : Option ReleaseBundle → Option Deployment → Option String
instance_of (some b) _ = b.workflow_instance_id
instance_of none (some d) = d.bundle_instance
instance_of none none = none

abbrev pub target_of : Option ReleaseBundle → Option Deployment → Option String
target_of (some b) _ = some b.target
target_of none (some d) = some d.target
target_of none none = none

abbrev pub opt_map {ℓ κ} : {A : Type ℓ} {B : Type κ} → (A → B) → Option A → Option B
opt_map f none = none
opt_map f (some a) = some (f a)

unfoldable pub new_event :
    Upstream
    → Option ReleaseBundle
    → Option Deployment
    → WorkflowStage
    → WorkflowEventType
    → Option String
    → Option String
    → Option Text
    → WorkflowEvent
new_event u release deployment stage event_type status error_code message = record {
  release_bundle_id = bundle_id_of release deployment;
  deployment_id = opt_map (λ (d : Deployment). d.id) deployment;
  workflow_instance_id = instance_of release deployment;
  stage = stage;
  event_type = event_type;
  status = status;
  error_code = error_code;
  message = message;
  actor = u.actor;
  actor_source = u.actor_source;
  component = opt_map (λ (d : Deployment). d.component) deployment;
  target = target_of release deployment;
}

module _ (u : Upstream) where
  -- An event of the session's deployment, under its present status.
  abbrev pub emit :
      WorkflowStage → WorkflowEventType → Option String → Option Text → Session → Session
  emit stage event_type error_code message s =
      let status = deployment_value s.deployment.status in
      record s {
        events =
            new_event u s.release (some s.deployment) stage event_type (some status) error_code
              message
            ∷ s.events;
      }
