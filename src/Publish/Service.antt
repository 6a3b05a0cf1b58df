-- ===== src/Publish/Service.antt =====
-- `publish_component` of app/services/publish_service.py. The commit in its midst writes what the
-- objects hold; no exception that comes later changes them before it leaves.
use Prim.Native.String.{◌++◌ as concat}
use release_controller.Prelude.{
  String, Bool, true, false, not, ◌&&◌, Option, none, some, List, [], ◌∷◌, ◌++◌, str_eq,
  if◌then◌else◌, or_else, Outcome, ok, err,
}
use release_controller.Workflow.{PublishStatus}
use release_controller.Registry.{ProjectComponent}
use release_controller.Deployment.{lit, quoted, Text}
use release_controller.Publish.{
  PublishRecordStatus, PublishRecord, Publication, PublishRequest, Press, Desk, PublishError,
  configuration, different_commit, gitea_failed, uncaught, GiteaRelease, gitea_code,
}
use release_controller.Publish.Ensure.{asked, Aim, Ensured, ensure_release}

-- The record, and whether Gitea had the release already.
abbrev pub Published : Type 0
Published = Outcome PublishError (PublishRecord × Bool)

abbrev pub has_words : Option String → Bool
has_words none = false
has_words (some s) = not (str_eq s "")

abbrev words : Option String → String
words none = ""
words (some s) = s

-- Owner and name of the repository.
unfoldable pub get_gitea_repo : ProjectComponent → Outcome PublishError (String × String)
get_gitea_repo c =
    if not c.publish_enabled
    then err (
        configuration
          (lit "Component " ∷ quoted c.key ∷ lit " is configured not to publish releases" ∷ []))
    else if has_words c.gitea_owner && has_words c.gitea_repo
    then ok (words c.gitea_owner, words c.gitea_repo)
    else err (configuration (lit "Gitea repository is not configured for " ∷ lit c.key ∷ []))

unfoldable pub find_record : String → List PublishRecord → Option PublishRecord
find_record version [] = none
find_record version (r ∷ rs) =
    let rest = find_record version rs in if str_eq r.version version then some r else rest

-- The records before the one that was found, it, and those behind it.
abbrev pub Place : Type 0
Place = List PublishRecord × PublishRecord × List PublishRecord

abbrev pub step_over : PublishRecord → Option Place → Option Place
step_over x none = none
step_over x (some (before, r, after)) = some (x ∷ before, r, after)

-- The record of a version, where it stands.
unfoldable pub find_place : String → List PublishRecord → Option Place
find_place version [] = none
find_place version (r ∷ rs) =
    let rest = find_place version rs in
    if str_eq r.version version then some ([], r, rs) else step_over r rest

unfoldable pub is_published : PublishRecordStatus → Bool
is_published PublishRecordStatus.published = true
is_published _ = false

-- `str(exc)` of `TagAlreadyExistsDifferentCommit`
abbrev pub moved_message : String → Text
moved_message tag = lit "Tag " ∷ lit tag ∷ lit " already exists on a different commit" ∷ []

-- Objects at work: the deployment, and the record of the version among the deployment's others. The
-- list of records in `publication` is the one before the work began.
pub record Work : Type 0 where
  pub publication : Publication
  pub before : List PublishRecord
  pub rec : PublishRecord
  pub after : List PublishRecord
  pub desk : Desk

abbrev pub left : Published → Work → Published × Publication × Desk
left answer w =
    (answer, record w.publication { publish_records = w.before ++ w.rec ∷ w.after }, w.desk)

module _ (u : Press) where
  -- `_record_for`: a new record has the defaults of its columns.
  abbrev new_record :
      Publication → String → String × String → ProjectComponent → Desk → PublishRecord
  new_record p version (owner, name) c d = record {
    id = u.new_id d.ticks;
    release_bundle_id = p.deployment.release_bundle_id;
    deployment_id = p.deployment.id;
    project_id = some p.deployment.project_id;
    component_id = some c.id;
    component = p.deployment.component;
    version = version;
    repo_owner = owner;
    repo_name = name;
    commit_sha = p.deployment.commit_sha;
    tag_name = concat c.tag_prefix version;
    gitea_release_id = none;
    gitea_release_url = none;
    status = PublishRecordStatus.publishing;
    error_code = none;
    error_message = none;
    requested_by = u.actor;
    created_at = u.clock d.ticks;
    updated_at = u.clock d.ticks;
    published_at = none;
  }

  unfoldable pub found_or_new :
      Option Place → Publication → String → String × String → ProjectComponent → Desk → Work
  found_or_new (some (before, r, after)) p version repo c d = record {
    publication = p;
    before = before;
    rec = r;
    after = after;
    desk = d;
  }
  found_or_new none p version repo c d = record {
    publication = p;
    before = p.publish_records;
    rec = new_record p version repo c d;
    after = [];
    desk = asked d;
  }

  unfoldable pub record_for :
      Publication → String → String × String → ProjectComponent → Desk → Work
  record_for p version repo c d =
      found_or_new (find_place version p.publish_records) p version repo c d

  -- `_apply_success`
  unfoldable pub apply_success : Work → Work
  apply_success w =
      let now = u.clock w.desk.ticks in
      record w {
        publication = record w.publication {
          deployment = record w.publication.deployment { updated_at = now };
          publish_status = PublishStatus.published;
          version = some w.rec.version;
          gitea_release_id = w.rec.gitea_release_id;
          gitea_release_tag = some w.rec.tag_name;
          gitea_release_url = w.rec.gitea_release_url;
          published_at = some (or_else w.rec.published_at now);
          publish_failed_at = none;
          publish_error_code = none;
          publish_error_message = none;
        };
        desk = asked w.desk;
      }

  -- `_apply_failure`
  unfoldable pub apply_failure : String → Text → Work → Work
  apply_failure code message w =
      let now = u.clock w.desk.ticks in
      record w {
        publication = record w.publication {
          deployment = record w.publication.deployment { updated_at = now };
          publish_status = PublishStatus.failed;
          publish_failed_at = some now;
          publish_error_code = some code;
          publish_error_message = some message;
        };
        rec = record w.rec {
          status = PublishRecordStatus.failed;
          error_code = some code;
          error_message = some message;
          updated_at = now;
        };
        desk = asked w.desk;
      }

  -- What is committed before Gitea is asked.
  unfoldable pub start_publishing : String → Work → Work
  start_publishing version w =
      let now = u.clock w.desk.ticks in
      record w {
        publication = record w.publication {
          publish_status = PublishStatus.publishing;
          version = some version;
          publish_started_at = some (or_else w.publication.publish_started_at now);
          publish_failed_at = none;
          publish_error_code = none;
          publish_error_message = none;
        };
        rec = record w.rec {
          status = PublishRecordStatus.publishing;
          error_code = none;
          error_message = none;
          updated_at = now;
        };
        desk = asked w.desk;
      }

  abbrev pub with_release : GiteaRelease → Work → Work
  with_release release w =
      let now = u.clock w.desk.ticks in
      apply_success (record w {
        rec = record w.rec {
          gitea_release_id = some release.id;
          gitea_release_url = release.html_url;
          status = PublishRecordStatus.published;
          published_at = some now;
          updated_at = now;
        };
        desk = asked w.desk;
      })

  unfoldable pub on_ensured : Ensured × Desk → Work → Published × Publication × Desk
  on_ensured (ok (release, already_exists), d) w =
      let done = with_release release (record w { desk = d }) in
      left (ok (done.rec, already_exists)) done
  on_ensured (err (different_commit tag), d) w = left (err (different_commit tag)) (
      apply_failure "TAG_ALREADY_EXISTS_DIFFERENT_COMMIT" (moved_message tag)
        (record w { desk = d }))
  on_ensured (err (gitea_failed e message), d) w =
      let done = apply_failure (gitea_code e) (lit message ∷ []) (record w { desk = d }) in
      left (ok (done.rec, false)) done
  on_ensured (err e, d) w = left (err e) (record w { desk = d })

  abbrev pub aim_of : PublishRequest → ProjectComponent → String × String → Work → Aim
  aim_of payload c (owner, name) w = record {
    component = c;
    owner = owner;
    name = name;
    tag = w.rec.tag_name;
    commit_sha = w.publication.deployment.commit_sha;
    payload = payload;
  }

  unfoldable pub on_record :
      PublishRequest → ProjectComponent → String × String → Work → Published × Publication × Desk
  on_record payload c repo w =
      if is_published w.rec.status
      then (let done = apply_success w in left (ok (done.rec, true)) done)
      else (let started = start_publishing payload.version w in
          on_ensured (ensure_release u (aim_of payload c repo started) started.desk) started)

  unfoldable pub on_repo :
      PublishRequest
      → ProjectComponent
      → Outcome PublishError (String × String)
      → Publication
      → Desk
      → Published × Publication × Desk
  on_repo payload c (err e) p d = (err e, p, d)
  on_repo payload c (ok repo) p d =
      if u.has_connection d.ticks c
      then on_record payload c repo (record_for p payload.version repo c (asked d))
      else (err uncaught, p, asked d)

  unfoldable pub with_component :
      PublishRequest → Option ProjectComponent → Publication → Desk → Published × Publication × Desk
  with_component payload none p d = (err uncaught, p, d)
  with_component payload (some c) p d = on_repo payload c (get_gitea_repo c) p d

  unfoldable pub publish_component :
      PublishRequest → Publication → Desk → Published × Publication × Desk
  publish_component payload p d =
      with_component payload (u.component_row d.ticks p.deployment.component_id) p (asked d)
