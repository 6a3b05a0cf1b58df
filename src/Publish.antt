-- ===== src/Publish.antt =====
-- Publishing the releases of deployments in Gitea (app/services/publish_service.py,
-- app/services/publish_orchestrator.py): the rows, the client, and what a session asks for.
pub mod Ensure
pub mod Service
pub mod Events
pub mod Orchestrator
pub mod Recovery
pub mod Tags
pub mod Aggregate
pub mod Truth
pub mod Unique
pub mod Complete
mod Examples
use release_controller.Prelude.{
  ℕ, String, Bool, true, false, Option, none, some, List, Outcome, ok, err, str_eq,
}
use release_controller.Workflow.{PublishStatus, BundleStatus}
use release_controller.Registry.{ProjectComponent}
use release_controller.Deployment.{Text, Deployment, ReleaseBundle, WorkflowEvent}

pub data PublishRecordStatus : Type 0 where
  publishing published failed : PublishRecordStatus

abbrev pub record_value : PublishRecordStatus → String
record_value publishing = "PUBLISHING"
record_value published = "PUBLISHED"
record_value failed = "FAILED"

abbrev pub publish_value : PublishStatus → String
publish_value PublishStatus.not_published = "NOT_PUBLISHED"
publish_value PublishStatus.publishing = "PUBLISHING"
publish_value PublishStatus.published = "PUBLISHED"
publish_value PublishStatus.failed = "FAILED"
publish_value PublishStatus.partial_failure = "PARTIAL_FAILURE"

-- A row of publish_records.
pub record PublishRecord : Type 0 where
  pub id : String
  pub release_bundle_id : Option String
  pub deployment_id : String
  pub project_id : Option String
  pub component_id : Option String
  pub component : String
  pub version : String
  pub repo_owner : String
  pub repo_name : String
  pub commit_sha : String
  pub tag_name : String
  pub gitea_release_id : Option String
  pub gitea_release_url : Option String
  pub status : PublishRecordStatus
  pub error_code : Option String
  pub error_message : Option Text
  pub requested_by : Option String
  pub created_at : ℕ
  pub updated_at : ℕ
  pub published_at : Option ℕ

-- A row of deployments with the columns of the publish, and its records. `updated_at` is the one of
-- the deployment.
pub record Publication : Type 0 where
  pub deployment : Deployment
  pub publish_status : PublishStatus
  pub version : Option String
  pub gitea_release_id : Option String
  pub gitea_release_tag : Option String
  pub gitea_release_url : Option String
  pub publish_started_at : Option ℕ
  pub published_at : Option ℕ
  pub publish_failed_at : Option ℕ
  pub publish_error_code : Option String
  pub publish_error_message : Option Text
  pub publish_records : List PublishRecord

-- A row of release_bundles with the columns of the publish.
pub record BundlePublication : Type 0 where
  pub bundle : ReleaseBundle
  pub version : Option String
  pub release_name : Option String
  pub release_notes : Option String
  pub publish_started_at : Option ℕ
  pub published_at : Option ℕ
  pub publish_failed_at : Option ℕ
  pub publish_error_code : Option String
  pub publish_error_message : Option Text

-- `PublishRequest`, as validated.
pub record PublishRequest : Type 0 where
  pub version : String
  pub name : String
  pub release_notes : String
  pub draft : Bool
  pub prerelease : Bool

pub record GiteaTag : Type 0 where
  pub name : String
  pub commit_sha : String

-- `id` is kept as the text that `str` makes of it.
pub record GiteaRelease : Type 0 where
  pub id : String
  pub tag_name : String
  pub name : String
  pub html_url : Option String
  pub target_commitish : Option String

-- The classes of app/integrations/gitea/exceptions.py.
pub data GiteaError : Type 0 where
  gitea_error connection_error authentication_error not_found_error : GiteaError
  conflict_error release_error timeout_error unexpected_response_error : GiteaError

abbrev pub gitea_code : GiteaError → String
gitea_code gitea_error = "GITEA_UNAVAILABLE"
gitea_code connection_error = "GITEA_UNAVAILABLE"
gitea_code authentication_error = "GITEA_AUTH_FAILED"
gitea_code not_found_error = "GITEA_REPO_NOT_FOUND"
gitea_code conflict_error = "RELEASE_ALREADY_EXISTS"
gitea_code release_error = "RELEASE_CREATE_FAILED"
gitea_code timeout_error = "GITEA_TIMEOUT"
gitea_code unexpected_response_error = "RELEASE_CREATE_FAILED"

-- What a call of the client raises: one of its errors with its message, or anything else.
pub data CallError : Type 0 where
  gitea : GiteaError → String → CallError
  other : CallError

abbrev pub Answer : Type 0 → Type 0
Answer A = Outcome CallError A

-- `client.for_component(component)` and the calls on it. The number of the question stands first;
-- then owner and name of the repository, and the tag.
pub record GiteaClient : Type 0 where
  pub get_repository : ℕ → ProjectComponent → String → String → Answer (Unit {0})
  pub get_tag : ℕ → ProjectComponent → String → String → String → Answer GiteaTag
  pub get_release_by_tag : ℕ → ProjectComponent → String → String → String → Answer GiteaRelease
  -- with the commit and the request
  pub create_release :
      ℕ
      → ProjectComponent
      → String
      → String
      → String
      → String
      → PublishRequest
      → Answer GiteaRelease

-- A request to create a release that went to Gitea.
pub record Created : Type 0 where
  pub owner : String
  pub name : String
  pub tag : String
  pub commit_sha : String

-- What publishing asks of the rest of the program and of the world, as in `Upstream`.
pub record Press : Type 0 where
  pub clock : ℕ → ℕ
  -- the default of the id column
  pub new_id : ℕ → String
  pub actor : Option String
  pub event_actor : String
  pub actor_source : String
  pub component_row : ℕ → String → Option ProjectComponent
  -- whether the registry finds a connection for the component
  pub has_connection : ℕ → ProjectComponent → Bool
  pub client : GiteaClient

-- What one publish works on besides the rows: the events and the requests that went out, the latest
-- first, and the number of questions that were asked.
pub record Desk : Type 0 where
  pub events : List WorkflowEvent
  pub created : List Created
  pub ticks : ℕ

-- The exceptions of publishing.
pub data PublishError : Type 0 where
  -- `PublishConfigurationError` with its message
  configuration : Text → PublishError
  -- `TagAlreadyExistsDifferentCommit` with the tag
  different_commit : String → PublishError
  -- a `GiteaError`, caught by `publish_component`
  gitea_failed : GiteaError → String → PublishError
  -- `PublishStateError`, `DeploymentNotPublishableError`
  publish_state not_publishable : PublishError
  -- an exception that nothing here catches
  uncaught : PublishError
