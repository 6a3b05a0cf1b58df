-- ===== src/Creation.antt =====
-- The start of a release (app/services/release_orchestrator.py: `create_bundle`,
-- `promote_standalone`): what is asked for, and what the registry and the tables hold.
pub mod Lookup
pub mod Selection
pub mod Insert
pub mod Bundle
pub mod Slots
pub mod Refusal
pub mod Fresh
pub mod Ordered
mod Examples
use release_controller.Prelude.{
  ℕ, zero, suc, ◌+◌, ◌-◌, ◌≤◌, ◌<◌, min, max, String, ◌≡◌, refl, sym, ap, ◌∙◌, ◌≢◌, ◌⊎◌, inl, inr,
  Bool, true, false, not, ◌&&◌, ◌||◌, Option, none, some, List, [], ◌∷◌, ◌++◌, map, arith, str_eq,
  eq_iff, length, length-append, any, All, All-append, ltb, leb, ◌==◌, if◌then◌else◌, Bool-cases,
  Option-cases, is_none, or_else, if-both, Outcome, ok, err, ◌>>=◌, or_text,
}
use release_controller.Registry.{ProjectComponent}
use release_controller.Drone.{CallError}
use release_controller.Deployment.{Deployment, WorkflowEvent}

-- A row of projects with its components, in the order of their positions.
pub record ProjectRow : Type 0 where
  pub id : String
  pub key : String
  pub default_target : String
  pub drone_connection_id : Option String
  pub gitea_connection_id : Option String
  pub is_archived : Bool
  pub components : List ProjectComponent

pub data ConnectionKind : Type 0 where
  drone gitea : ConnectionKind

-- A row of upstream_connections; the address and the credential are not read here.
pub record Connection : Type 0 where
  pub id : String
  pub kind : ConnectionKind
  pub is_default : Bool

pub data CreationError : Type 0 where
  project_not_registered no_default_project component_not_registered : CreationError
  component_not_selectable build_not_promotable duplicate_promotion : CreationError
  connection_not_found no_default_connection : CreationError
  build_failed : CallError → CreationError

-- The body of the request for a release.
pub record BundleRequest : Type 0 where
  pub project_id : Option String
  pub components : List (String × ℕ)
  pub frontend_build_number : Option ℕ
  pub backend_build_number : Option ℕ
  pub target : Option String
  pub requested_by : Option String

-- What a request reads besides the deployments: the registry, the required stages of the CI policy
-- of a component and a target, `uuid.uuid4`, and what other requests write to the deployments
-- between the checks of this one and its first INSERT.
pub record Site : Type 0 where
  pub projects : List ProjectRow
  pub connections : List Connection
  pub policy : String → String → Option (List String)
  pub new_id : ℕ → String
  pub others : List Deployment → List Deployment

-- What a request has written and not committed: the table, the deployments that it has added to it,
-- its events, the latest first, and the number of its questions.
pub record Draft : Type 0 where
  pub rows : List Deployment
  pub made : List Deployment
  pub events : List WorkflowEvent
  pub ticks : ℕ
