-- ===== src/Workflow.antt =====
-- The words that the orchestration writes down (app/domain/orchestration/value_objects/*.py): the
-- statuses, the stages of the BPMN diagrams, and the kinds of audit events.
use release_controller.Prelude.{String, str_eq, if◌then◌else◌}

pub data DeploymentStatus : Type 0 where
  waiting promoting deploying success failed cancelled : DeploymentStatus

pub data BundleStatus : Type 0 where
  pending promoting deploying success failed partial_failure : BundleStatus

pub data PublishStatus : Type 0 where
  not_published publishing published failed partial_failure : PublishStatus

-- The stages of a deployment; those of a publish are not written by the code modelled here.
pub data WorkflowStage : Type 0 where
  validate_frontend validate_backend create_release_bundle : WorkflowStage
  promote_backend wait_backend_deployment promote_frontend wait_frontend_deployment : WorkflowStage
  complete_release complete_deployment wait_publish_request prepare_release_version : WorkflowStage
  publish_backend_release publish_frontend_release complete_publish : WorkflowStage
  validate_component promote_component wait_component_deployment : WorkflowStage
  publish_component_release : WorkflowStage

pub data WorkflowEventType : Type 0 where
  stage_started stage_succeeded stage_failed deployment_cancelled : WorkflowEventType
  promotion_created drone_status_changed release_completed publish_requested : WorkflowEventType
  publish_stage_started publish_stage_succeeded publish_stage_failed : WorkflowEventType
  gitea_release_created gitea_release_already_exists publish_completed : WorkflowEventType
  publish_partial_failure upstream_unavailable upstream_recovered : WorkflowEventType
  promotion_unconfirmed promotion_reconciled deployment_retried : WorkflowEventType
  publish_reconciled deployment_resumed : WorkflowEventType

-- `_PROMOTE_STAGES` and `_WAIT_STAGES`: the two components with stages of their own.
unfoldable pub promote_stage : String → WorkflowStage
promote_stage key =
    if str_eq key "frontend"
    then promote_frontend
    else if str_eq key "backend"
    then promote_backend
    else promote_component

unfoldable pub wait_stage : String → WorkflowStage
wait_stage key =
    if str_eq key "frontend"
    then wait_frontend_deployment
    else if str_eq key "backend"
    then wait_backend_deployment
    else wait_component_deployment

unfoldable pub validate_stage : String → WorkflowStage
validate_stage key =
    if str_eq key "frontend"
    then validate_frontend
    else if str_eq key "backend"
    then validate_backend
    else validate_component

-- `.value` of the statuses, as the events carry them.
abbrev pub deployment_value : DeploymentStatus → String
deployment_value DeploymentStatus.waiting = "WAITING"
deployment_value DeploymentStatus.promoting = "PROMOTING"
deployment_value DeploymentStatus.deploying = "DEPLOYING"
deployment_value DeploymentStatus.success = "SUCCESS"
deployment_value DeploymentStatus.failed = "FAILED"
deployment_value DeploymentStatus.cancelled = "CANCELLED"

abbrev pub bundle_value : BundleStatus → String
bundle_value BundleStatus.pending = "PENDING"
bundle_value BundleStatus.promoting = "PROMOTING"
bundle_value BundleStatus.deploying = "DEPLOYING"
bundle_value BundleStatus.success = "SUCCESS"
bundle_value BundleStatus.failed = "FAILED"
bundle_value BundleStatus.partial_failure = "PARTIAL_FAILURE"
