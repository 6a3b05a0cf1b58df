-- ===== src/Drone.antt =====
-- Drone's builds and the errors of its client (app/integrations/drone/schemas.py, exceptions.py),
-- and the stage checks of app/services/ci_policy.py.
pub mod Builds
pub mod Stages
pub mod Search
pub mod Fixtures
mod Examples
use release_controller.Prelude.{
  ℕ, String, Bool, true, false, not, ◌&&◌, ◌||◌, Option, none, some, List, [], ◌∷◌, any, or_text,
  str_eq, ◌==◌, if◌then◌else◌,
}

pub record DroneStep : Type 0 where
  pub number : ℕ
  pub name : String
  pub status : String
  pub exit_code : Option ℕ

pub record DroneStage : Type 0 where
  pub number : ℕ
  pub name : String
  pub status : String
  pub steps : List DroneStep

-- The descriptive fields (message, author, time stamps) are not read by the code modelled here.
pub record DroneBuild : Type 0 where
  pub number : ℕ
  pub status : String
  pub event : String
  pub parent : Option ℕ
  pub target : Option String
  pub branch : String
  pub commit_sha : String
  pub stages : List DroneStage

unfoldable pub is_promotable : DroneBuild → Bool
is_promotable build = str_eq build.status "success" && str_eq build.event "push"

-- `self.parent == source_build_number`
abbrev pub has_parent : Option ℕ → ℕ → Bool
has_parent none n = false
has_parent (some p) n = p == n

unfoldable pub is_promotion_of : DroneBuild → ℕ → String → Bool
is_promotion_of build source target =
    if str_eq build.event "promote" || str_eq build.event "promotion"
    then if str_eq (or_text build.target "") target then has_parent build.parent source else false
    else false

-- The classes of the client's exceptions, and an exception of any other kind, which has no
-- `error_code`.
pub data DroneError : Type 0 where
  drone_error connection_error authentication_error not_found_error : DroneError
  promote_error timeout_error unexpected_response_error : DroneError

pub data CallError : Type 0 where
  drone : DroneError → CallError
  other : CallError

abbrev pub error_code : DroneError → String
error_code drone_error = "DRONE_UNAVAILABLE"
error_code connection_error = "DRONE_UNAVAILABLE"
error_code authentication_error = "DRONE_AUTH_FAILED"
error_code not_found_error = "BUILD_NOT_FOUND"
error_code promote_error = "DRONE_PROMOTE_FAILED"
error_code timeout_error = "DRONE_TIMEOUT"
error_code unexpected_response_error = "DRONE_UNAVAILABLE"

-- `getattr(exc, "error_code", "DRONE_UNAVAILABLE")`
abbrev pub code_of : CallError → String
code_of (drone e) = error_code e
code_of other = "DRONE_UNAVAILABLE"

-- `[stage for stage in build.stages if stage.name == name]`
abbrev pub named : String → List DroneStage → List DroneStage
named name [] = []
named name (stage ∷ stages) =
    let rest = named name stages in if str_eq stage.name name then stage ∷ rest else rest

-- The checks of the steps of a stage that must have deployed something.
unfoldable pub deployed : List DroneStep → Bool
deployed steps =
    any (λ (step : DroneStep). str_eq step.status "success" && not (str_eq step.name "clone")) steps
    && not (
        any
          (λ (step : DroneStep). not (str_eq step.status "success" || str_eq step.status "skipped"))
          steps)

-- One round of the loop of `stages_succeeded`, on the stages of the name.
unfoldable pub stage_succeeded : Bool → List DroneStage → Bool
unfolding deployed
stage_succeeded deployment (stage ∷ []) =
    str_eq stage.status "success" && (if deployment then deployed stage.steps else true)
stage_succeeded deployment _ = false

unfoldable pub all_succeeded : DroneBuild → Bool → List String → Bool
all_succeeded build deployment [] = true
all_succeeded build deployment (name ∷ names) =
    let rest = all_succeeded build deployment names in
    if stage_succeeded deployment (named name build.stages) then rest else false

unfoldable pub stages_succeeded : DroneBuild → List String → Bool → Bool
unfolding all_succeeded stage_succeeded
stages_succeeded build [] deployment = false
stages_succeeded build (name ∷ names) deployment = all_succeeded build deployment (name ∷ names)
