-- ===== src/Release/Transition.antt =====
-- The transition use cases (app/usecase/release/_transition.py and the use cases beside it).
-- The workflow gateway is an interface. `others` is what other requests commit to the table between
-- this request's read and its UPDATE; without concurrency it is the identity.
use release_controller.Prelude.{
  ℕ, String, Option, none, some, List, [], ◌∷◌, if◌then◌else◌, ok, err, ◌>>=◌,
}
use release_controller.Release.{
  ReleaseStatus, pending, approved, rejected, deploying, success, failed, Release,
  release_not_found, invalid_transition, Raises, create, approve, reject, start_deployment,
  finish_deployment,
}
use release_controller.Release.Store.{Table, find_by_id, save_transition, add}

-- `ReleaseWorkflowGateway`: `Flows` is what the session holds of the workflow instances.
pub record Workflows : Type 1 where
  pub Flows : Type 0
  pub create_for_release : String → Flows → Flows
  pub ensure_for_transition : Release → Flows → Raises Flows
  -- release, element, step data
  pub complete_step : String → String → List (String × String) → Flows → Raises Flows

-- The four use cases, with their arguments and the instant that each reads first.
pub data Action : Type 0 where
  approving : Option String → ℕ → Action
  rejecting : Option String → Option String → ℕ → Action
  starting : ℕ → Action
  finishing : ReleaseStatus → Option String → ℕ → Action

unfoldable pub perform : Action → Release → Raises (Release × ReleaseStatus)
unfolding approve reject start_deployment finish_deployment
perform (approving by now) = approve by now
perform (rejecting by message now) = reject by message now
perform (starting now) = start_deployment now
perform (finishing status message now) = finish_deployment status message now

-- `element_id`
unfoldable pub element_of : Action → String
element_of (approving _ _) = "Task_approval_gate"
element_of (rejecting _ _ _) = "Task_approval_gate"
element_of (starting _) = "Task_start_deployment"
element_of (finishing _ _ _) = "Task_execute_deployment"

-- `status.value.lower()`
abbrev lower_value : ReleaseStatus → String
lower_value pending = "pending"
lower_value approved = "approved"
lower_value rejected = "rejected"
lower_value deploying = "deploying"
lower_value success = "success"
lower_value failed = "failed"

-- `step_data`
unfoldable pub step_data_of : Action → List (String × String)
step_data_of (approving _ _) = ("decision", "approved") ∷ []
step_data_of (rejecting _ _ _) = ("decision", "rejected") ∷ []
step_data_of (starting _) = []
step_data_of (finishing status _ _) = ("deployment_result", lower_value status) ∷ []

module _ (w : Workflows) where
  pub record World : Type 0 where
    pub rows : Table
    pub flows : w.Flows

  -- `_load`
  abbrev pub load : String → Table → Raises Release
  load key rows = elim (find_by_id key rows) [ none ↦ err release_not_found | some r ↦ ok r ]

  -- The request lost the race: roll back, and report the status that is there now.
  abbrev conflict : String → Table → ReleaseStatus → Raises Release
  conflict key rows expected = load key rows >>= λ now. err (invalid_transition now.status expected)

  -- From the UPDATE to the end of `run_transition`.
  unfoldable pub write :
      Table
      → String
      → Release
      → ReleaseStatus
      → String
      → List (String × String)
      → World
      → w.Flows
      → Raises Release × World
  write rows key r' expected element step_data s flows =
      let (rows', won) = save_transition r' expected rows in
      if won
      then elim (w.complete_step key element step_data flows) [
        | err e ↦ (err e, record s { rows = rows })
        | ok flows' ↦ (load key rows', record { rows = rows'; flows = flows' })
      ]
      else (conflict key rows expected, record s { rows = rows })

  -- The end of the request for one that raised before its UPDATE.
  abbrev aborted : Table → World → World
  aborted rows s = record s { rows = rows }

  -- `run_transition`. The world that it leaves holds the table as the database has it then.
  unfoldable pub run_transition :
      (Table → Table)
      → String
      → (Release → Raises (Release × ReleaseStatus))
      → String
      → List (String × String)
      → World
      → Raises Release × World
  unfolding write
  run_transition others key apply element step_data s =
      let rows = others s.rows in
      elim (find_by_id key s.rows) [
        | none ↦ (err release_not_found, aborted rows s)
        | some r ↦ elim (w.ensure_for_transition r s.flows) [
          | err e ↦ (err e, aborted rows s)
          | ok flows ↦ elim (apply r) [
            | err e ↦ (err e, aborted rows s)
            | ok (r', expected) ↦ write rows key r' expected element step_data s flows
          ]
        ]
      ]

  -- `execute` of the four transition use cases.
  unfoldable pub execute : (Table → Table) → String → Action → World → Raises Release × World
  unfolding run_transition perform element_of step_data_of
  execute others key action =
      run_transition others key (perform action) (element_of action) (step_data_of action)

  -- `CreateReleaseUseCaseImpl.execute`
  unfoldable pub create_release :
      String
      → String
      → String
      → String
      → String
      → Option String
      → ℕ
      → World
      → Raises Release × World
  create_release id repository branch commit_sha environment message now s =
      let release = create id repository branch commit_sha environment message now in
      elim (add release s.rows) [
        | err e ↦ (err e, s)
        | ok rows ↦ (ok release, record { rows = rows; flows = w.create_for_release id s.flows })
      ]

  -- `GetReleaseUseCaseImpl.execute`
  unfoldable pub get_release : String → World → Raises Release
  get_release key s = load key s.rows
