-- ===== src/Publish/Recovery.antt =====
-- The sweep over interrupted publishes (app/services/recovery_service.py: `_reconcile_bundle_publish`,
-- `_reconcile_deployment_publish`). The query for stale rows is the caller's.
use release_controller.Prelude.{
  ℕ, String, Bool, true, false, ◌&&◌, Option, none, some, List, [], ◌∷◌, or_else, length, ◌==◌, ltb,
  if◌then◌else◌,
}
use release_controller.Workflow.{PublishStatus, complete_publish, publish_reconciled}
use release_controller.Deployment.{lit, num, Text, Deployment, ReleaseBundle}
use release_controller.Deployment.Events.{bundle_id_of, instance_of, target_of, opt_map}
use release_controller.Publish.{
  PublishRecord, Publication, BundlePublication, Press, Desk, publish_value,
}
use release_controller.Publish.Ensure.{asked}
use release_controller.Publish.Aggregate.{Item, of_version, records_of, count_published}

-- `_verdict`: the status, and the message.
unfoldable pub verdict : ℕ → ℕ → PublishStatus
verdict published expected =
    if ltb 0 expected && published == expected
    then PublishStatus.published
    else if ltb 0 published
    then PublishStatus.partial_failure
    else PublishStatus.failed

unfoldable pub verdict_message : PublishStatus → ℕ → ℕ → Text
verdict_message PublishStatus.published published expected =
    lit "Publish was interrupted but every component had already reached Gitea" ∷ []
verdict_message PublishStatus.partial_failure published expected =
    lit "Publish was interrupted with "
    ∷ num published
    ∷ lit " of "
    ∷ num expected
    ∷ lit " components published"
    ∷ []
verdict_message _ published expected =
    lit "Publish was interrupted before any component reached Gitea" ∷ []

abbrev interrupted_code : String
interrupted_code = "PUBLISH_INTERRUPTED"

abbrev code_for : PublishStatus → Option String
code_for PublishStatus.published = none
code_for _ = some interrupted_code

-- `record.version == bundle.version`; a row without a version has no records of it.
abbrev pub records_at : Option String → List Item → ℕ
records_at none items = 0
records_at (some version) items = count_published (records_of version items)

abbrev published_records : Option String → List PublishRecord → ℕ
published_records none records = 0
published_records (some version) records = count_published (of_version version records)

-- The writes of `_apply_publish_verdict` on a bundle, and on a deployment.
unfoldable pub judge_bundle : PublishStatus → Text → ℕ → BundlePublication → BundlePublication
judge_bundle PublishStatus.published message now b = record b {
  bundle = record b.bundle { publish_status = PublishStatus.published; updated_at = now };
  published_at = some (or_else b.published_at now);
  publish_failed_at = none;
  publish_error_code = none;
  publish_error_message = none;
}
judge_bundle status message now b = record b {
  bundle = record b.bundle { publish_status = status; updated_at = now };
  publish_failed_at = some now;
  publish_error_code = some interrupted_code;
  publish_error_message = some message;
}

unfoldable pub judge_deployment : PublishStatus → Text → ℕ → Publication → Publication
judge_deployment PublishStatus.published message now p = record p {
  deployment = record p.deployment { updated_at = now };
  publish_status = PublishStatus.published;
  published_at = some (or_else p.published_at now);
  publish_failed_at = none;
  publish_error_code = none;
  publish_error_message = none;
}
judge_deployment status message now p = record p {
  deployment = record p.deployment { updated_at = now };
  publish_status = status;
  publish_failed_at = some now;
  publish_error_code = some interrupted_code;
  publish_error_message = some message;
}

-- `publish_status != PUBLISHING`
abbrev pub is_in_progress : PublishStatus → Bool
is_in_progress PublishStatus.publishing = true
is_in_progress _ = false

module _ (u : Press) where
  -- The event of the sweep: its actor and the source of it are both "SYSTEM".
  abbrev note : Option ReleaseBundle → Option Deployment → PublishStatus → Text → Desk → Desk
  note release deployment status message d = record d {
    events =
        record {
          release_bundle_id = bundle_id_of release deployment;
          deployment_id = opt_map (λ (x : Deployment). x.id) deployment;
          workflow_instance_id = instance_of release deployment;
          stage = complete_publish;
          event_type = publish_reconciled;
          status = some (publish_value status);
          error_code = code_for status;
          message = some message;
          actor = "SYSTEM";
          actor_source = "SYSTEM";
          component = opt_map (λ (x : Deployment). x.component) deployment;
          target = target_of release deployment;
        }
        ∷ d.events;
  }

  unfoldable pub reconcile_bundle : List Item → BundlePublication → Desk → BundlePublication × Desk
  reconcile_bundle items b d =
      if is_in_progress b.bundle.publish_status
      then (let published = records_at b.version items in
          let expected = length items in
          let status = verdict published expected in
          let message = verdict_message status published expected in
          let b' = judge_bundle status message (u.clock d.ticks) b in
          (b', note (some b'.bundle) none status message (asked d)))
      else (b, d)

  unfoldable pub reconcile_deployment : Publication → Desk → Publication × Desk
  reconcile_deployment p d =
      if is_in_progress p.publish_status
      then (let published = published_records p.version p.publish_records in
          let status = verdict published 1 in
          let message = verdict_message status published 1 in
          let p' = judge_deployment status message (u.clock d.ticks) p in
          (p', note none (some p'.deployment) status message (asked d)))
      else (p, d)
