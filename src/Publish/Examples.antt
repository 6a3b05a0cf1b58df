-- ===== src/Publish/Examples.antt =====
-- A bundle of two deployments, published on concrete rows (app/services/publish_orchestrator.py).
use release_controller.Prelude.{
  String, true, false, none, some, List, [], ◌∷◌, All, ◌≡◌, refl, ok, err, arith, ◌<◌,
}
use release_controller.Workflow.{success, PublishStatus, BundleStatus}
use release_controller.Registry.{ProjectComponent}
use release_controller.Drone.Fixtures.{api}
use release_controller.Deployment.Fixtures.{fresh, bundle}
use release_controller.Publish.{
  PublishRecordStatus, PublishRecord, Publication, BundlePublication, PublishRequest, GiteaClient,
  Press, Desk, gitea, not_found_error,
}
use release_controller.Publish.Ensure.{
  Aim, ensure_release, create, on_created, on_final, on_release, on_repository, on_reread, on_tag,
}
use release_controller.Publish.Service.{
  publish_component, with_component, on_repo, get_gitea_repo, on_record, is_published, record_for,
  found_or_new, find_record, find_place, apply_failure, apply_success, on_ensured, start_publishing,
}
use release_controller.Publish.Events.{
  prepare_deployment, fail_without_record, publish_stage, record_component_result,
}
use release_controller.Publish.Tags.{Ends, ensure_release-Ends}
use release_controller.Publish.Aggregate.{
  Item, aggregate_bundle, aggregate_status, count_published, records_of, of_version, error_of,
  first_error, first_failure,
}
use release_controller.Publish.Orchestrator.{
  is_publishing, count_publishing, publish_one, publish_bundle, refuses_version, on_all,
  publish_all, after_one, on_result, is_pinning, request_publish,
}
use release_controller.Publish.Recovery.{reconcile_bundle}
use release_controller.Publish.Truth.{reconcile_bundle-aggregate_bundle, reconcile_bundle-shortfall}
use release_controller.Publish.Unique.{Unique, publish_one-Unique}
use release_controller.Publish.Complete.{Tidy, ready, one_if, publish_bundle-Honest}

-- Gitea has no tag yet, and creates every release.
abbrev empty_gitea : GiteaClient
empty_gitea = record {
  get_repository = λ n c owner name. ok tt;
  get_tag = λ n c owner name tag. err (gitea not_found_error "no tag");
  get_release_by_tag = λ n c owner name tag. err (gitea not_found_error "no release");
  create_release = λ n c owner name tag sha payload. ok (record {
    id = "1";
    tag_name = tag;
    name = payload.name;
    html_url = none;
    target_commitish = some sha;
  });
}

abbrev shop : ProjectComponent
shop = record api { publish_enabled = true; gitea_owner = some "acme"; gitea_repo = some "api" }

abbrev press : Press
press = record {
  clock = λ n. n;
  new_id = λ n. "record";
  actor = some "ann";
  event_actor = "ann";
  actor_source = "API";
  component_row = λ n id. some shop;
  has_connection = λ n c. true;
  client = empty_gitea;
}

abbrev desk : Desk
desk = record { events = []; created = []; ticks = 0 }

abbrev payload : PublishRequest
payload = record {
  version = "v1.0.0";
  name = "One";
  release_notes = "";
  draft = false;
  prerelease = false;
}

abbrev aim : Aim
aim = record {
  component = shop;
  owner = "acme";
  name = "api";
  tag = "v1.0.0";
  commit_sha = "abc";
  payload = payload;
}

ensure_release-Ends_example : Ends press aim desk (ensure_release press aim desk)
ensure_release-Ends_example = ensure_release-Ends press aim desk

abbrev unpublished : String → Publication
unpublished id = record {
  deployment = record (fresh id) { status = success };
  publish_status = PublishStatus.not_published;
  version = none;
  gitea_release_id = none;
  gitea_release_tag = none;
  gitea_release_url = none;
  publish_started_at = none;
  published_at = none;
  publish_failed_at = none;
  publish_error_code = none;
  publish_error_message = none;
  publish_records = [];
}

abbrev wanted : Item
wanted = record { publication = unpublished "a"; component_row = some shop }

abbrev unwanted : Item
unwanted = record { publication = unpublished "b"; component_row = some api }

abbrev ready_bundle : BundlePublication
ready_bundle = record {
  bundle = record bundle {
    status = BundleStatus.success;
    deployment_status = BundleStatus.success;
  };
  version = none;
  release_name = none;
  release_notes = none;
  publish_started_at = none;
  published_at = none;
  publish_failed_at = none;
  publish_error_code = none;
  publish_error_message = none;
}

nothing-Unique : Unique []
unfolding of_version
nothing-Unique version = omega arith

publish_one-Unique_example :
    Unique (publish_one press none payload true (unpublished "a") desk).1.publish_records
publish_one-Unique_example =
    publish_one-Unique press none payload true (unpublished "a") desk nothing-Unique

items-Tidy : All (Tidy "v1.0.0") (wanted ∷ unwanted ∷ [])
unfolding of_version
items-Tidy = ((nothing-Unique, λ off. refl), ((nothing-Unique, λ off. refl), tt))

publish_answers :
    (publish_bundle press payload ready_bundle (wanted ∷ unwanted ∷ []) desk).0 ≡ ok tt
unfolding publish_bundle refuses_version count_publishing on_all publish_all after_one publish_one
    on_result publish_component with_component on_repo get_gitea_repo on_record is_published
    record_for found_or_new find_record prepare_deployment aggregate_bundle aggregate_status
    count_published error_of first_error first_failure of_version records_of create ensure_release
    on_created on_final on_release on_repository on_reread on_tag publish_stage
    record_component_result is_pinning request_publish apply_failure apply_success on_ensured
    find_place start_publishing fail_without_record
publish_answers = refl

publish_succeeds :
    (publish_bundle press payload ready_bundle
      (wanted ∷ unwanted ∷ [])
      desk).1.bundle.publish_status
    ≡ PublishStatus.published
unfolding publish_bundle refuses_version count_publishing on_all publish_all after_one publish_one
    on_result publish_component with_component on_repo get_gitea_repo on_record is_published
    record_for found_or_new find_record prepare_deployment aggregate_bundle aggregate_status
    count_published error_of first_error first_failure of_version records_of create ensure_release
    on_created on_final on_release on_repository on_reread on_tag publish_stage
    record_component_result is_pinning request_publish apply_failure apply_success on_ensured
    find_place start_publishing fail_without_record
publish_succeeds = refl

publish_bundle-Honest_example :
    All
      (λ i. ready "v1.0.0" i ≡ one_if (is_publishing i))
      (publish_bundle press payload ready_bundle (wanted ∷ unwanted ∷ []) desk).2
publish_bundle-Honest_example =
    publish_bundle-Honest press payload ready_bundle (wanted ∷ unwanted ∷ []) desk items-Tidy
      publish_answers publish_succeeds

abbrev published_record : PublishRecord
published_record = record {
  id = "record";
  release_bundle_id = some "b1";
  deployment_id = "a";
  project_id = some "p1";
  component_id = some "c1";
  component = "backend";
  version = "v1.0.0";
  repo_owner = "acme";
  repo_name = "api";
  commit_sha = "abc";
  tag_name = "v1.0.0";
  gitea_release_id = some "1";
  gitea_release_url = none;
  status = PublishRecordStatus.published;
  error_code = none;
  error_message = none;
  requested_by = some "ann";
  created_at = 1;
  updated_at = 2;
  published_at = some 2;
}

-- The runner died before it could say that all was published.
abbrev interrupted : BundlePublication
interrupted = record ready_bundle {
  bundle = record bundle { publish_status = PublishStatus.publishing };
  version = some "v1.0.0";
}

abbrev done : Item
done = record {
  publication = record (unpublished "a") { publish_records = published_record ∷ [] };
  component_row = some shop;
}

reconcile_bundle-aggregate_bundle_example :
    (reconcile_bundle press (done ∷ []) interrupted desk).0.bundle.publish_status
    ≡ (aggregate_bundle press "v1.0.0"
        (count_publishing (done ∷ []))
        (done ∷ [])
        interrupted
        desk).0.bundle.publish_status
reconcile_bundle-aggregate_bundle_example =
    reconcile_bundle-aggregate_bundle press "v1.0.0" (done ∷ []) interrupted interrupted desk desk
      refl refl (refl, tt)

one_counts :
    count_published (records_of "v1.0.0" (done ∷ unwanted ∷ []))
    ≡ count_publishing (done ∷ unwanted ∷ [])
unfolding count_published records_of of_version count_publishing is_published
one_counts = refl

abbrev mixed : List Item
mixed = done ∷ unwanted ∷ []

fewer : count_publishing mixed < 2
unfolding count_publishing
fewer = omega arith

more : 0 < count_publishing mixed
unfolding count_publishing
more = omega arith

reconcile_bundle-shortfall_example :
    ((aggregate_bundle press "v1.0.0"
        (count_publishing mixed)
        mixed
        interrupted
        desk).0.bundle.publish_status
      ≡ PublishStatus.published)
    × ((reconcile_bundle press mixed interrupted desk).0.bundle.publish_status
        ≡ PublishStatus.partial_failure)
reconcile_bundle-shortfall_example =
    reconcile_bundle-shortfall press "v1.0.0" mixed interrupted interrupted desk desk refl refl
      fewer more one_counts

-- A component whose publishing was turned off after it had published counts for one that has failed
-- since: the bundle is PUBLISHED.
abbrev lost : Item
lost = record {
  publication = record (unpublished "b") {
    publish_records =
        record published_record {
          deployment_id = "b";
          status = PublishRecordStatus.failed;
          error_code = some "GITEA_TIMEOUT";
        }
        ∷ [];
  };
  component_row = some shop;
}

abbrev turned_off : Item
turned_off = record done { component_row = some api }

stray_counts :
    (aggregate_bundle press "v1.0.0"
      (count_publishing (turned_off ∷ lost ∷ []))
      (turned_off ∷ lost ∷ [])
      interrupted
      desk).0.bundle.publish_status
    ≡ PublishStatus.published
unfolding aggregate_bundle aggregate_status count_published records_of of_version count_publishing
    is_published
stray_counts = refl
