-- ===== src/Release.antt =====
-- domain/release: the v1 approval entity and its state machine
-- (app/domain/release/entities/release.py, value_objects/release_status.py,
-- exceptions/release_exceptions.py). A method that mutates the entity returns the new entity with
-- the status that it required; the database compares that status when it writes.
pub mod Store
pub mod Transition
pub mod Machine
pub mod Requests
pub mod History
pub mod Race
mod Examples
use release_controller.Prelude.{
  ℕ, String, Bool, true, false, ◌||◌, Option, none, some, ◌==◌, if◌then◌else◌, Outcome, ok, err,
  ◌>>=◌,
}

pub data ReleaseStatus : Type 0 where
  pending approved rejected deploying success failed : ReleaseStatus

-- The members in the order of the enum, to compare them.
abbrev pub rank : ReleaseStatus → ℕ
rank pending = 0
rank approved = 1
rank rejected = 2
rank deploying = 3
rank success = 4
rank failed = 5

-- `a is b` on enum members.
abbrev pub same_status : ReleaseStatus → ReleaseStatus → Bool
same_status a b = rank a == rank b

-- Instants are natural numbers: microseconds since an epoch.
pub record Release : Type 0 where
  pub id : String
  pub repository : String
  pub branch : String
  pub commit_sha : String
  pub environment : String
  pub status : ReleaseStatus
  pub created_at : ℕ
  pub updated_at : ℕ
  pub approved_by : Option String
  pub approved_at : Option ℕ
  pub rejected_by : Option String
  pub rejected_at : Option ℕ
  pub deploy_started_at : Option ℕ
  pub deploy_finished_at : Option ℕ
  pub message : Option String

pub data ReleaseError : Type 0 where
  release_not_found duplicate_release value_error workflow_step : ReleaseError
  -- the current status and the expected one
  invalid_transition : ReleaseStatus → ReleaseStatus → ReleaseError

abbrev pub Raises : Type 0 → Type 0
Raises A = Outcome ReleaseError A

-- `Release.create`; the identifier is the caller's `uuid4`.
unfoldable pub create : String → String → String → String → String → Option String → ℕ → Release
create id repository branch commit_sha environment message now = record {
  id = id;
  repository = repository;
  branch = branch;
  commit_sha = commit_sha;
  environment = environment;
  status = pending;
  created_at = now;
  updated_at = now;
  approved_by = none;
  approved_at = none;
  rejected_by = none;
  rejected_at = none;
  deploy_started_at = none;
  deploy_finished_at = none;
  message = message;
}

-- `_require`
abbrev pub require : ReleaseStatus → Release → Raises ReleaseStatus
require expected r =
    if same_status r.status expected
    then ok expected
    else err (invalid_transition r.status expected)

unfoldable pub approve : Option String → ℕ → Release → Raises (Release × ReleaseStatus)
approve by now r = do
  expected ← require pending r
  ok (
    record r { status = approved; approved_by = by; approved_at = some now; updated_at = now },
    expected,
  )

unfoldable pub reject :
    Option String → Option String → ℕ → Release → Raises (Release × ReleaseStatus)
reject by message now r = do
  expected ← require pending r
  ok (
    record r {
      status = rejected;
      rejected_by = by;
      rejected_at = some now;
      updated_at = now;
      message = message;
    },
    expected,
  )

unfoldable pub start_deployment : ℕ → Release → Raises (Release × ReleaseStatus)
start_deployment now r = do
  expected ← require approved r
  ok (record r { status = deploying; deploy_started_at = some now; updated_at = now }, expected)

-- `status in FINISHED_STATUSES`
abbrev pub is_finished : ReleaseStatus → Bool
is_finished s = same_status s success || same_status s failed

unfoldable pub finish_deployment :
    ReleaseStatus → Option String → ℕ → Release → Raises (Release × ReleaseStatus)
finish_deployment status message now r =
    if is_finished status
    then (do
      expected ← require deploying r
      ok (
        record r {
          status = status;
          deploy_finished_at = some now;
          updated_at = now;
          message = message;
        },
        expected,
      ))
    else err value_error
