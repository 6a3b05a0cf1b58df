-- ===== src/Publish/Events.antt =====
-- The audit events of publishing, and the writes that go with them
-- (app/services/publish_orchestrator.py).
use release_controller.Prelude.{
  String, Bool, Option, none, some, [], ◌∷◌, or_else, str_eq, if◌then◌else◌,
}
use release_controller.Workflow.{
  PublishStatus, WorkflowStage, WorkflowEventType, publish_frontend_release,
  publish_backend_release, publish_component_release, prepare_release_version, wait_publish_request,
  complete_publish, publish_requested, publish_stage_started, publish_stage_succeeded,
  publish_stage_failed, gitea_release_already_exists, gitea_release_created, publish_completed,
}
use release_controller.Deployment.{lit, Text, Deployment, ReleaseBundle}
use release_controller.Publish.{
  PublishRecord, Publication, BundlePublication, PublishRequest, Press, Desk, record_value,
  publish_value,
}
use release_controller.Deployment.Events.{bundle_id_of, instance_of, target_of, opt_map}
use release_controller.Publish.Service.{is_published}
use release_controller.Publish.Ensure.{asked}

-- `_publish_stage`
unfoldable pub publish_stage : String → WorkflowStage
publish_stage key =
    if str_eq key "frontend"
    then publish_frontend_release
    else if str_eq key "backend"
    then publish_backend_release
    else publish_component_release

abbrev text_of : Option String → Option Text
text_of none = none
text_of (some s) = some (lit s ∷ [])

module _ (u : Press) where
  -- OrchestrationWorkflowService.append, of a bundle, a deployment, or both.
  abbrev pub append_event :
      Option ReleaseBundle
      → Option Deployment
      → WorkflowStage
      → WorkflowEventType
      → String
      → Option String
      → Option Text
      → Desk
      → Desk
  append_event release deployment stage event_type status error_code message d = record d {
    events =
        record {
          release_bundle_id = bundle_id_of release deployment;
          deployment_id = opt_map (λ (x : Deployment). x.id) deployment;
          workflow_instance_id = instance_of release deployment;
          stage = stage;
          event_type = event_type;
          status = some status;
          error_code = error_code;
          message = message;
          actor = u.event_actor;
          actor_source = u.actor_source;
          component = opt_map (λ (x : Deployment). x.component) deployment;
          target = target_of release deployment;
        }
        ∷ d.events;
  }

  abbrev of_deployment : Publication → WorkflowStage → WorkflowEventType → Option Text → Desk → Desk
  of_deployment p stage event_type message =
      append_event none (some p.deployment) stage event_type (publish_value p.publish_status) none
        message

  -- `_prepare_deployment`
  unfoldable pub prepare_deployment :
      PublishRequest → Bool → Publication → Desk → Publication × Desk
  prepare_deployment payload emit_prepare p d =
      let now = u.clock d.ticks in
      let p' = record p {
        deployment = record p.deployment { updated_at = now };
        version = some payload.version;
        publish_status = PublishStatus.publishing;
        publish_started_at = some (or_else p.publish_started_at now);
      } in
      let requested =
        of_deployment p' wait_publish_request publish_requested
          (some (lit "Publish " ∷ lit payload.version ∷ lit " requested" ∷ [])) (asked d) in
      let prepared =
        if emit_prepare
        then of_deployment p' prepare_release_version publish_stage_succeeded
            (some (lit "Version " ∷ lit payload.version ∷ lit " validated" ∷ []))
            (of_deployment p' prepare_release_version publish_stage_started none requested)
        else requested in
      (
        p',
        of_deployment p' (publish_stage p'.deployment.component) publish_stage_started none
            prepared,
      )

  -- `_prepare_version_event`
  abbrev pub prepare_version_event : BundlePublication → Desk → Desk
  prepare_version_event b d =
      let status = publish_value b.bundle.publish_status in
      let version = or_else b.version "None" in
      append_event (some b.bundle) none prepare_release_version publish_stage_succeeded status none
        (some (lit "Version " ∷ lit version ∷ lit " validated" ∷ []))
        (append_event (some b.bundle) none prepare_release_version publish_stage_started status none
          none d)

  -- `_record_component_result`
  unfoldable pub record_component_result :
      Publication → PublishRecord → Bool → Option ReleaseBundle → Desk → Desk
  record_component_result p r already_exists release d =
      let stage = publish_stage p.deployment.component in
      let status = record_value r.status in
      if is_published r.status
      then append_event release (some p.deployment) stage
          (if already_exists then gitea_release_already_exists else gitea_release_created) status
          none (text_of r.gitea_release_url)
          (append_event release (some p.deployment) stage publish_stage_succeeded status none
            (some (lit "Gitea release " ∷ lit r.tag_name ∷ lit " is ready" ∷ [])) d)
      else append_event release (some p.deployment) stage publish_stage_failed status r.error_code
          r.error_message d

  -- `_fail_without_record`
  unfoldable pub fail_without_record :
      String → Text → Option ReleaseBundle → Publication → Desk → Publication × Desk
  fail_without_record code message release p d =
      let now = u.clock d.ticks in
      let p' = record p {
        deployment = record p.deployment { updated_at = now };
        publish_status = PublishStatus.failed;
        publish_failed_at = some now;
        publish_error_code = some code;
        publish_error_message = some message;
      } in
      (
        p',
        append_event release (some p'.deployment) (publish_stage p'.deployment.component)
            publish_stage_failed (publish_value p'.publish_status) (some code) (some message)
            (asked d),
      )

  -- `_finish_deployment_publish`
  unfoldable pub finish_deployment_publish : Publication → Desk → Publication × Desk
  finish_deployment_publish p d =
      let now = u.clock d.ticks in
      let updated =
        λ (x : Publication). record x { deployment = record x.deployment { updated_at = now } } in
      elim p.publish_status [
        | PublishStatus.published ↦
            (updated p, of_deployment p complete_publish publish_completed none (asked d))
        | _ ↦ (
          updated (record p { publish_failed_at = some (or_else p.publish_failed_at now) }),
          asked d,
        )
      ]
