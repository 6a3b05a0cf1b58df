-- ===== src/Publish/Orchestrator.antt =====
-- `publish_standalone` and `publish_bundle` of app/services/publish_orchestrator.py. The deployments
-- of a bundle come in the order that `ordered_by_component` gives.
use release_controller.Prelude.{
  ℕ, suc, String, Bool, true, false, not, ◌&&◌, Option, none, some, List, [], ◌∷◌, any, Outcome, ok,
  err, or_else, str_eq, ◌==◌, if◌then◌else◌,
}
use release_controller.Workflow.{
  success, PublishStatus, BundleStatus, wait_publish_request, publish_requested,
}
use release_controller.Deployment.{lit, ReleaseBundle, has_status}
use release_controller.Publish.{
  PublishRecord, Publication, BundlePublication, PublishRequest, Press, Desk, PublishError,
  configuration, different_commit, publish_state, not_publishable, uncaught, publish_value,
}
use release_controller.Publish.Ensure.{asked}
use release_controller.Publish.Service.{Published, find_record, publish_component}
use release_controller.Publish.Events.{
  append_event, prepare_deployment, prepare_version_event, record_component_result,
  fail_without_record, finish_deployment_publish,
}
use release_controller.Publish.Aggregate.{Item, aggregate_bundle}

-- `VERSION_IS_PINNED_WHILE`
unfoldable pub is_pinning : PublishStatus → Bool
is_pinning PublishStatus.publishing = true
is_pinning PublishStatus.published = true
is_pinning PublishStatus.partial_failure = true
is_pinning _ = false

abbrev differs : Option String → String → Bool
differs none requested = false
differs (some current) requested = not (str_eq current "") && not (str_eq current requested)

-- `_assert_version`: whether it raises.
unfoldable pub refuses_version : Option String → PublishStatus → String → Bool
refuses_version current status requested = differs current requested && is_pinning status

abbrev pub is_success : BundleStatus → Bool
is_success BundleStatus.success = true
is_success _ = false

-- The publish of one deployment: the tag that is on another commit, if there was one.
abbrev pub One : Type 0
One = Outcome PublishError (Option String) × Publication × Desk

abbrev pub failed_one : Publication × Desk → One
failed_one (p, d) = (ok none, p, d)

abbrev conflict_of : Option String → Outcome PublishError (Unit {0})
conflict_of none = ok tt
conflict_of (some tag) = err (different_commit tag)

abbrev finish :
    Outcome PublishError (Unit {0})
    → Publication × Desk
    → Outcome PublishError (Unit {0}) × Publication × Desk
finish answer (p, d) = (answer, p, d)

abbrev is_part : Option String → Bool
is_part none = false
is_part (some _) = true

abbrev pub is_publishing : Item → Bool
is_publishing i = elim i.component_row [ none ↦ false | some c ↦ c.publish_enabled ]

abbrev pub is_missing : Item → Bool
is_missing i = elim i.component_row [ none ↦ true | some _ ↦ false ]

-- The conflicts, the deployments, and the rest of the desk.
abbrev pub AllPublished : Type 0
AllPublished = Outcome PublishError (List String) × List Item × Desk

abbrev pub with_item : Item → AllPublished → AllPublished
with_item i (answer, items, d) = (answer, i ∷ items, d)

abbrev pub with_conflict : Option String → AllPublished → AllPublished
with_conflict (some tag) (ok tags, items, d) = (ok (tag ∷ tags), items, d)
with_conflict _ r = r

-- The end of one round of the loop; `later` are the rounds to come.
unfoldable pub after_one : Item → List Item → One → (Desk → AllPublished) → AllPublished
after_one i items (err e, p, d) later = (err e, record i { publication = p } ∷ items, d)
after_one i items (ok conflict, p, d) later =
    with_item (record i { publication = p }) (with_conflict conflict (later d))

unfoldable pub count_publishing : List Item → ℕ
count_publishing [] = 0
count_publishing (i ∷ items) =
    let rest = count_publishing items in if is_publishing i then suc rest else rest

abbrev pub BundleResult : Type 0
BundleResult = Outcome PublishError (Unit {0}) × BundlePublication × List Item × Desk

abbrev first_conflict : List String → Outcome PublishError (Unit {0})
first_conflict [] = ok tt
first_conflict (tag ∷ tags) = err (different_commit tag)

abbrev aggregated :
    Outcome PublishError (Unit {0}) → List Item → BundlePublication × Desk → BundleResult
aggregated answer items (b, d) = (answer, b, items, d)

module _ (u : Press) where
  -- After a conflict the record is read again.
  abbrev pub on_conflict :
      Option ReleaseBundle → String → Option PublishRecord → Publication → Desk → One
  on_conflict release tag none p d = (err uncaught, p, d)
  on_conflict release tag (some r) p d =
      (ok (some tag), p, record_component_result u p r false release d)

  -- The `try` of both methods.
  unfoldable pub on_result : Option ReleaseBundle → String → Published × Publication × Desk → One
  on_result release version (ok (r, already_exists), p, d) =
      (ok none, p, record_component_result u p r already_exists release d)
  on_result release version (err (different_commit tag), p, d) =
      on_conflict release tag (find_record version p.publish_records) p d
  on_result release version (err (configuration message), p, d) =
      failed_one (fail_without_record u "GITEA_REPO_NOT_FOUND" message release p d)
  on_result release version (err e, p, d) = (err e, p, d)

  abbrev pub publish_prepared : Option ReleaseBundle → PublishRequest → Publication × Desk → One
  publish_prepared release payload (p, d) =
      on_result release payload.version (publish_component u payload p d)

  unfoldable pub publish_one :
      Option ReleaseBundle → PublishRequest → Bool → Publication → Desk → One
  publish_one release payload emit_prepare p d =
      publish_prepared release payload (prepare_deployment u payload emit_prepare p d)

  unfoldable pub on_one : One → Outcome PublishError (Unit {0}) × Publication × Desk
  on_one (err e, p, d) = (err e, p, d)
  on_one (ok conflict, p, d) = finish (conflict_of conflict) (finish_deployment_publish u p d)

  unfoldable pub publish_standalone :
      PublishRequest → Publication → Desk → Outcome PublishError (Unit {0}) × Publication × Desk
  publish_standalone payload p d =
      if is_part p.deployment.release_bundle_id
      then (err publish_state, p, d)
      else if not (has_status p.deployment success)
      then (err not_publishable, p, d)
      else if refuses_version p.version p.publish_status payload.version
      then (err publish_state, p, d)
      else on_one (publish_one none payload true p d)

  -- The writes of `publish_bundle` before its loop.
  unfoldable pub request_publish :
      PublishRequest → BundlePublication → Desk → BundlePublication × Desk
  request_publish payload b d =
      let now = u.clock d.ticks in
      let b' = record b {
        bundle = record b.bundle { publish_status = PublishStatus.publishing; updated_at = now };
        version = some payload.version;
        release_name = some payload.name;
        release_notes = some payload.release_notes;
        publish_started_at = some (or_else b.publish_started_at now);
        published_at = none;
        publish_failed_at = none;
        publish_error_code = none;
        publish_error_message = none;
      } in
      (
        b',
        prepare_version_event u b' (
            append_event u (some b'.bundle) none wait_publish_request publish_requested
              (publish_value b'.bundle.publish_status) none
              (some (lit "Publish " ∷ lit payload.version ∷ lit " requested" ∷ [])) (asked d)),
      )

  unfoldable pub publish_all : PublishRequest → ReleaseBundle → List Item → Desk → AllPublished
  publish_all payload bundle [] d = (ok [], [], d)
  publish_all payload bundle (i ∷ items) d =
      if is_publishing i
      then after_one i items (publish_one (some bundle) payload false i.publication d)
          (λ d'. publish_all payload bundle items d')
      else with_item i (publish_all payload bundle items d)

  unfoldable pub on_all : String → BundlePublication → AllPublished → BundleResult
  on_all version b (err e, items, d) = (err e, b, items, d)
  on_all version b (ok tags, items, d) =
      aggregated (first_conflict tags) items
        (aggregate_bundle u version (count_publishing items) items b d)

  abbrev pub publish_requested_bundle :
      PublishRequest → List Item → BundlePublication × Desk → BundleResult
  publish_requested_bundle payload items (b, d) =
      if any is_missing items
      then (err uncaught, b, items, d)
      else if count_publishing items == 0
      then (err publish_state, b, items, d)
      else on_all payload.version b (publish_all payload b.bundle items d)

  unfoldable pub publish_bundle :
      PublishRequest → BundlePublication → List Item → Desk → BundleResult
  publish_bundle payload b items d =
      if not (is_success b.bundle.deployment_status)
      then (err not_publishable, b, items, d)
      else if refuses_version b.version b.bundle.publish_status payload.version
      then (err publish_state, b, items, d)
      else publish_requested_bundle payload items (request_publish payload b d)
