-- ===== src/Publish/Aggregate.antt =====
-- `_aggregate_bundle` of app/services/publish_orchestrator.py: what the records of a version make of
-- their bundle.
use release_controller.Prelude.{
  ℕ, suc, String, Bool, true, false, ◌&&◌, Option, none, some, List, [], ◌∷◌, ◌++◌, ◌==◌, ltb,
  str_eq, if◌then◌else◌,
}
use release_controller.Workflow.{
  PublishStatus, WorkflowEventType, complete_publish, publish_completed, publish_partial_failure,
  publish_stage_failed,
}
use release_controller.Registry.{ProjectComponent}
use release_controller.Deployment.{Text}
use release_controller.Publish.{
  PublishRecordStatus, PublishRecord, Publication, BundlePublication, Press, Desk, publish_value,
}
use release_controller.Publish.Ensure.{asked}
use release_controller.Publish.Service.{is_published, has_words}
use release_controller.Publish.Events.{append_event}

-- A deployment of the bundle, and its row of the registry.
pub record Item : Type 0 where
  pub publication : Publication
  pub component_row : Option ProjectComponent

unfoldable pub of_version : String → List PublishRecord → List PublishRecord
of_version version [] = []
of_version version (r ∷ rs) =
    let rest = of_version version rs in if str_eq r.version version then r ∷ rest else rest

-- `records`
unfoldable pub records_of : String → List Item → List PublishRecord
records_of version [] = []
records_of version (i ∷ is) =
    of_version version i.publication.publish_records ++ records_of version is

unfoldable pub count_published : List PublishRecord → ℕ
count_published [] = 0
count_published (r ∷ rs) =
    let rest = count_published rs in if is_published r.status then suc rest else rest

abbrev is_failed : PublishRecordStatus → Bool
is_failed PublishRecordStatus.failed = true
is_failed _ = false

-- Code and message of the first record that failed.
unfoldable pub first_failure : List PublishRecord → Option (Option String × Option Text)
first_failure [] = none
first_failure (r ∷ rs) =
    let rest = first_failure rs in
    if is_failed r.status then some (r.error_code, r.error_message) else rest

-- Of the first deployment that has an error.
unfoldable pub first_error : List Item → Option (Option String × Option Text)
first_error [] = none
first_error (i ∷ is) = elim i.publication.publish_error_code [
  | none ↦ first_error is
  | some code ↦ some (some code, i.publication.publish_error_message)
]

abbrev or_keep :
    Option (Option String × Option Text) → Option String × Option Text → Option String × Option Text
or_keep none old = old
or_keep (some new) old = new

-- Code and message of the bundle: an empty code is falsy.
unfoldable pub error_of :
    Option (Option String × Option Text)
    → List Item
    → Option String × Option Text
    → Option String × Option Text
error_of (some failure) items old = failure
error_of none items old =
    let now = or_keep (first_error items) old in if has_words now.0 then now else (none, none)

-- The status, by the numbers of records published and expected.
unfoldable pub aggregate_status : ℕ → ℕ → PublishStatus
aggregate_status published expected =
    if published == expected && ltb 0 published
    then PublishStatus.published
    else if ltb 0 published
    then PublishStatus.partial_failure
    else PublishStatus.failed

abbrev aggregate_event : PublishStatus → WorkflowEventType
aggregate_event PublishStatus.published = publish_completed
aggregate_event PublishStatus.partial_failure = publish_partial_failure
aggregate_event _ = publish_stage_failed

abbrev pub with_status : PublishStatus → ℕ → BundlePublication → BundlePublication
with_status PublishStatus.published now b = record b {
  bundle = record b.bundle { publish_status = PublishStatus.published; updated_at = now };
  published_at = some now;
  publish_failed_at = none;
}
with_status status now b = record b {
  bundle = record b.bundle { publish_status = status; updated_at = now };
  publish_failed_at = some now;
}

module _ (u : Press) where
  unfoldable pub aggregate_bundle :
      String → ℕ → List Item → BundlePublication → Desk → BundlePublication × Desk
  aggregate_bundle version expected items b d =
      let records = records_of version items in
      let status = aggregate_status (count_published records) expected in
      let (code, message) =
        error_of (first_failure records) items (b.publish_error_code, b.publish_error_message) in
      let b' = record (with_status status (u.clock d.ticks) b) {
        publish_error_code = code;
        publish_error_message = message;
      } in
      (
        b',
        append_event u (some b'.bundle) none complete_publish (aggregate_event status)
            (publish_value status) code message (asked d),
      )
