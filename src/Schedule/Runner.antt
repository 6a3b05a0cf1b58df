-- ===== src/Schedule/Runner.antt =====
-- `ScheduleRunner` of app/services/schedule_service.py: the claim of a schedule that is due, its run,
-- and what is written at the end.
use release_controller.Prelude.{
  ℕ, zero, suc, String, Bool, true, false, ◌&&◌, Option, none, some, List, [], ◌∷◌, str_eq, length,
  leb, if◌then◌else◌,
}
use release_controller.Deployment.{Text, lit}
use release_controller.Schedule.{
  Bool, List, ℕ, String, Option, Text, ScheduleStatus, running, is_pending, ComponentBuild,
  DeploymentSchedule, Launch, bundle_launch, standalone_launch, Launcher,
}

abbrev build_of : String → Option ℕ → List (String × ℕ) → List (String × ℕ)
build_of key none rest = rest
build_of key (some n) rest = (key, n) ∷ rest

abbrev builds_of : List ComponentBuild → List (String × ℕ)
builds_of [] = []
builds_of (b ∷ bs) = (b.component_key, b.build_number) ∷ builds_of bs

unfoldable pub legacy_selection : DeploymentSchedule → List (String × ℕ)
legacy_selection s =
    if str_eq s.mode "FRONTEND_ONLY"
    then build_of "frontend" s.frontend_build_number []
    else if str_eq s.mode "BACKEND_ONLY"
    then build_of "backend" s.backend_build_number []
    else build_of "backend" s.backend_build_number (build_of "frontend" s.frontend_build_number [])

-- `_selection_for`
unfoldable pub selection_for : DeploymentSchedule → List (String × ℕ)
selection_for s = elim s.component_builds [ [] ↦ legacy_selection s | b ∷ bs ↦ builds_of (b ∷ bs) ]

-- What is asked for; `selection[0]` raises if there is nothing to release.
abbrev pub launch_for : DeploymentSchedule → List (String × ℕ) → Option Launch
launch_for s [] = none
launch_for s (one ∷ []) = some (standalone_launch s.project_id one.0 one.1 s.target s.requested_by)
launch_for s (one ∷ two ∷ rest) =
    some (bundle_launch s.project_id (one ∷ two ∷ rest) s.target s.requested_by)

unfoldable pub launch_of : DeploymentSchedule → Option Launch
launch_of s = launch_for s (selection_for s)

-- The claiming UPDATE: whether it met a row, and the row.
unfoldable pub claim : ℕ → DeploymentSchedule → Bool × DeploymentSchedule
claim now row =
    if is_pending row.status
    then (true, record row { status = running; started_at = some now; updated_at = now })
    else (false, row)

-- The link that the runner stores: to the bundle or to the deployment.
abbrev linked : Launch → String → DeploymentSchedule → DeploymentSchedule
linked (bundle_launch p cs t r) id row = record row { release_bundle_id = some id }
linked (standalone_launch p k n t r) id row = record row { deployment_id = some id }

-- `schedule.error_message = None`, which the UPDATE has only if the loaded object had a message
abbrev cleared : DeploymentSchedule → DeploymentSchedule → Option Text
cleared loaded row = elim loaded.error_message [ none ↦ row.error_message | some _ ↦ none ]

abbrev pub failure_message : Text
failure_message = lit "Scheduled deployment failed; inspect the deployment history." ∷ []

-- The last commit, with the object that was loaded after the claim, what was asked for and the
-- answer. An exception makes the runner load the row again.
unfoldable pub finish :
    ℕ → DeploymentSchedule → Option Launch → Option String → DeploymentSchedule → DeploymentSchedule
finish now loaded (some launch) (some id) row = record (linked launch id row) {
  status = ScheduleStatus.succeeded;
  error_message = cleared loaded row;
  finished_at = some now;
  updated_at = now;
}
finish now loaded launch answer row = record row {
  status = ScheduleStatus.failed;
  error_message = some failure_message;
  finished_at = some now;
  updated_at = now;
}

-- The schedules, what was launched for which of them, the latest first, and the number of questions.
pub record Desk : Type 0 where
  pub rows : List DeploymentSchedule
  pub launched : List (String × Launch)
  pub ticks : ℕ

abbrev pub noted : String → Option Launch → List (String × Launch) → List (String × Launch)
noted id none launched = launched
noted id (some launch) launched = (id, launch) ∷ launched

-- The rows with a primary key; there is at most one.
unfoldable pub find_row : String → List DeploymentSchedule → Option DeploymentSchedule
find_row id [] = none
find_row id (r ∷ rs) = let rest = find_row id rs in if str_eq r.id id then some r else rest

unfoldable pub put_row :
    String → DeploymentSchedule → List DeploymentSchedule → List DeploymentSchedule
put_row id row [] = []
put_row id row (r ∷ rs) =
    let rest = put_row id row rs in if str_eq r.id id then row ∷ rest else r ∷ rest

abbrev pub due_before : ℕ → DeploymentSchedule → Bool
due_before now r = is_pending r.status && leb r.scheduled_for_utc now

-- The query of `run_due`: the rows that are due, the earliest first.
unfoldable pub insert_due : DeploymentSchedule → List DeploymentSchedule → List DeploymentSchedule
insert_due r [] = r ∷ []
insert_due r (x ∷ xs) =
    let rest = insert_due r xs in
    if leb r.scheduled_for_utc x.scheduled_for_utc then r ∷ x ∷ xs else x ∷ rest

unfoldable pub due_rows : ℕ → List DeploymentSchedule → List DeploymentSchedule
due_rows now [] = []
due_rows now (r ∷ rs) =
    let rest = due_rows now rs in if due_before now r then insert_due r rest else rest

unfoldable pub first_rows : ℕ → List DeploymentSchedule → List DeploymentSchedule
first_rows zero rows = []
first_rows (suc n) [] = []
first_rows (suc n) (r ∷ rs) = r ∷ first_rows n rs

abbrev pub ids_of : List DeploymentSchedule → List String
ids_of [] = []
ids_of (r ∷ rs) = r.id ∷ ids_of rs

module _ (u : Launcher) where
  abbrev answer_to : ℕ → Option Launch → Option String
  answer_to k none = none
  answer_to k (some launch) = u.orchestrator k launch

  -- The run of a schedule that was claimed: from the load of the row to the last commit.
  unfoldable pub run_claimed : String → DeploymentSchedule → Desk → Desk
  run_claimed id row d =
      let launch = launch_of row in
      record {
        rows =
            put_row id (finish (u.clock (suc d.ticks)) row launch (answer_to d.ticks launch) row)
              d.rows;
        launched = noted id launch d.launched;
        ticks = suc (suc d.ticks);
      }

  unfoldable pub on_claim : String → Bool × DeploymentSchedule → Desk → Desk
  on_claim id (true, row) d = run_claimed id row d
  on_claim id (false, row) d = d

  unfoldable pub on_row : String → Option DeploymentSchedule → Desk → Desk
  on_row id none d = record d { ticks = suc d.ticks }
  on_row id (some row) d =
      on_claim id (claim (u.clock d.ticks) row) (record d { ticks = suc d.ticks })

  -- `_run_one`
  unfoldable pub run_one : String → Desk → Desk
  run_one id d = on_row id (find_row id d.rows) d

  unfoldable pub run_all : List String → Desk → Desk
  run_all [] d = d
  run_all (id ∷ ids) d = run_all ids (run_one id d)

  -- `run_due`, with the number of schedules that were due
  unfoldable pub run_due : Desk → ℕ × Desk
  run_due d =
      let ids = ids_of (first_rows u.batch_size (due_rows (u.clock d.ticks) d.rows)) in
      (length ids, run_all ids (record d { ticks = suc d.ticks }))
