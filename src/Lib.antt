-- ===== src/Lib.antt =====
-- A model of the core of Release Controller, the service that approves releases, promotes Drone
-- builds of the components of a project to a target, and drives a bundle of such deployments
-- forward until all have succeeded or one has failed.
--
-- Parts:
--   Prelude: what the parts share: tests, lists, results.
--   Retry: the retries of upstream reads (app/integrations/retry.py).
--   Release: the v1 approval. Release is the entity (app/domain/release/entities/release.py); Store
--     the table with its compare-and-swap (app/infrastructure/sqlite/release/release_repository.py);
--     Transition the use cases over both (app/usecase/release/_transition.py and its siblings);
--     Machine, Requests, History and Race what holds of them.
--   Workflow: the enumerations (app/domain/orchestration/value_objects).
--   Registry: the row of a component (app/db/models/registry.py); Project is the entity of a project
--     with its components (app/domain/registry/entities/project.py), Changes the update of one of
--     them; Order, Edits and Undo prove.
--   Drone: builds, errors and the stage checks (app/integrations/drone/schemas.py and exceptions.py,
--     app/services/ci_policy.py); Builds is app/services/drone_build_service.py.
--   Deployment: the rows (app/db/models/orchestration.py) and app/services/deployment_service.py:
--     Events (with app/services/workflow_service.py, append), Lifecycle, Polling, Promotion
--     (promote, from the claim to its commit), Refreshing (refresh) and Slots (the promotion slots of
--     the unique index); the other files prove.
--   Orchestrator: app/services/release_orchestrator.py: Advance is _advance, Operations is
--     refresh_bundle, retry_bundle and refresh_standalone; Rounds is advance, cancel, _fail_bundle and
--     _finish_bundle of app/usecase/orchestration/_promotion.py with the methods of
--     app/domain/orchestration/entities/release_bundle.py, Polls is refresh of the same use cases with
--     app/domain/orchestration/entities/deployment.py; the other files prove.
--   Publish: the rows and schemas of publishing; Ensure and Service are
--     app/services/publish_service.py (Ensure its _ensure_release), Events, Aggregate and Orchestrator
--     app/services/publish_orchestrator.py (Aggregate its _aggregate_bundle), Recovery the sweep over
--     interrupted publishes of app/services/recovery_service.py; Tags, Unique, Complete and Truth prove.
--   Schedule: the rows (app/db/models/scheduling.py); Runner is ScheduleRunner and Upkeep
--     ScheduleService.cancel (app/services/schedule_service.py) with the release of stale claims;
--     Resumption is resume_deployments (app/services/recovery_service.py); Claims, Overrun, Order,
--     Table, Fair and Once prove.
--   Creation: the start of a release (app/services/release_orchestrator.py, create_bundle and
--     promote_standalone); Lookup is app/services/component_registry.py with
--     app/usecase/registry/resolve_connection_usecase.py, Selection is _selected_components, Insert is
--     create with the unique index of app/db/models/orchestration.py, Bundle puts them together;
--     Slots, Refusal, Fresh and Ordered prove.
--   Outbox: the delivery of e-mails (app/services/notification_service.py, deliver_pending); Attempts
--     proves.
--
-- How the state is modelled. A session at work holds the object that it loaded and the row under
-- it: a commit writes the whole object into the row, and the UPDATE of the claim reads the row.
-- Events and promotions sent are lists, the latest first. The clock, the registry of components,
-- the CI policy, the check of the approved plan, str.lower and the client of Drone are parameters.
-- Those that may answer differently from time to time get the number of the questions before
-- (ticks), so that any sequence of answers can be had. Instants are natural numbers. A message is
-- kept as the pieces of its format string. In Release the gateway of the workflow is a parameter,
-- and so is what other requests write between the read and the UPDATE of one request.
--
-- A step of Deployment.Claims is what one session does between two commits, on the row as it then
-- is. In Orchestrator the steps come in the order of their components, as _ordered gives them; the
-- row of a step is not read by the others, so that what an early commit writes of an object is
-- written at the end of the pass here. After an exception the result holds the loaded objects,
-- which the service then throws away. The loops walk over a list or count attempts;
-- the rounds of Orchestrator.Rounds have the bound of the source, which is shown to be enough.
-- In Publish the records of a deployment are a list, the releases that were requested of Gitea
-- another, the latest first; the client of Gitea is a parameter.
--
-- The first commit of retry_bundle meets the unique index over the rows of the bundle and of all
-- other deployments, which are an argument; a reset only takes slots, so that its UPDATEs can go
-- through one by one exactly if their outcome has no conflict.
--
-- In Schedule the orchestrator is a parameter that gives an id or raises. A step of
-- Schedule.Claims is what one session does between two commits; sessions keep what they have
-- loaded (expire_on_commit is off), and an UPDATE has the columns that the session has changed.
--
-- In Creation an exception leaves the table as others have made it, since nothing is committed
-- before; what others write falls between the checks of a request and its first INSERT, and the
-- pass that follows the first commit is that of Orchestrator.
--
-- Not modelled: the columns of attachments; the lists and searches, which are queries; logging; of
-- the registry the creation of a component, the sort when a project is loaded, the slot conflicts
-- and the entity of a connection; the creation of schedules, the promotion of the use cases and
-- their repositories, plans, the queueing and the text of notifications, the HTTP and MCP layers.
pub mod Prelude
pub mod Retry
pub mod Release
pub mod Workflow
pub mod Registry
pub mod Drone
pub mod Deployment
pub mod Orchestrator
pub mod Publish
pub mod Schedule
pub mod Creation
pub mod Outbox
