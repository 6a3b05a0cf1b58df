-- ===== src/Schedule/Examples.antt =====
-- Concrete schedules for the tests of the scheduler.
use release_controller.Prelude.{
  ℕ, ◌+◌, ◌≤◌, String, ◌≡◌, refl, ◌≢◌, Bool, true, false, Option, none, some, List, [], ◌∷◌, map,
  arith, str_eq, eq_iff, length, ◌==◌, if◌then◌else◌,
}
use release_controller.Schedule.{
  ScheduleStatus, DeploymentSchedule, Launch, standalone_launch, Launcher,
}
use release_controller.Schedule.Runner.{
  Desk, run_due, run_one, due_rows, insert_due, first_rows, run_all, on_row, find_row, claim,
  on_claim, run_claimed, put_row, launch_of, selection_for, legacy_selection,
}
use release_controller.Schedule.Table.{HasDistinctIds}
use release_controller.Schedule.Claims.{
  Move, claiming, launching, ending, checking, cancelling, sweeping, run, untouched, one_launch,
}
use release_controller.Schedule.Overrun.{run_of, cancel_overrun}
use release_controller.Schedule.Order.{count_due}
use release_controller.Schedule.Fair.{passes, passes-drain}
use release_controller.Schedule.Resumption.{
  Refresh, bundle_refresh, standalone_refresh, resume_deployments,
}
use release_controller.Schedule.Once.{asked_for, resume_deployments-Once}

abbrev nightly : String → ℕ → DeploymentSchedule
nightly id at = record {
  id = id;
  project_id = some "shop";
  mode = "SINGLE";
  component_builds = record { component_id = "c1"; component_key = "api"; build_number = 7 } ∷ [];
  frontend_build_number = none;
  backend_build_number = none;
  target = "production";
  scheduled_for_utc = at;
  status = ScheduleStatus.pending;
  requested_by = some "ann";
  deployment_id = none;
  release_bundle_id = none;
  error_message = none;
  created_at = 1;
  updated_at = 1;
  started_at = none;
  finished_at = none;
}

-- A row that an old version wrote.
abbrev legacy : DeploymentSchedule
legacy = record (nightly "old" 5) {
  mode = "BACKEND_ONLY";
  component_builds = [];
  backend_build_number = some 3;
}

abbrev asked_now : Launch
asked_now = standalone_launch (some "shop") "api" 7 "production" (some "ann")

abbrev moves : List Move
moves =
    claiming 10
    ∷ claiming 11
    ∷ checking
    ∷ launching
    ∷ launching
    ∷ sweeping 12
    ∷ ending 13 (some "d1")
    ∷ cancelling 14
    ∷ []

one_launch_example : length (run moves (untouched (nightly "s1" 5))).launched ≤ 1
one_launch_example = one_launch moves (nightly "s1" 5)

-- A cancellation that found the schedule pending is stored after the claim, and a sweep meets it.
cancel_overrun_example :
    ((run
        (run_of 1 10 (cancelling 11 ∷ []) (sweeping 12 ∷ []) (ending 13 (some "d1")))
        (untouched (nightly "s1" 5))).row.status
      ≡ ScheduleStatus.succeeded)
    × ((run
          (run_of 1 10 (cancelling 11 ∷ []) (sweeping 12 ∷ []) (ending 13 (some "d1")))
          (untouched (nightly "s1" 5))).launched
        ≡ asked_now ∷ [])
unfolding launch_of selection_for
cancel_overrun_example =
    cancel_overrun (nightly "s1" 5) asked_now (some "d1") 1 10 13 (cancelling 11 ∷ [])
      (sweeping 12 ∷ []) refl refl (refl, tt) (refl, tt)

-- The orchestrator fails for the first question put to it.
abbrev launcher : Launcher
launcher = record {
  clock = λ k. 20 + k;
  orchestrator = λ k launch. if k == 2 then none else some "d1";
  batch_size = 1;
}

abbrev desk : Desk
desk = record { rows = nightly "s1" 9 ∷ legacy ∷ nightly "s3" 99 ∷ []; launched = []; ticks = 0 }

pass_runs_the_earliest : map (λ e. e.0) (run_due launcher desk).1.launched ≡ "old" ∷ []
unfolding run_due due_rows insert_due first_rows run_all run_one on_row find_row claim on_claim
    run_claimed put_row launch_of selection_for legacy_selection
pass_runs_the_earliest = refl

differ : (a b : String) → str_eq a b ≡ false → a ≢ b
differ a b h e = ground (arith, (eq_iff a b).1 e)

desk-HasDistinctIds : HasDistinctIds desk.rows
desk-HasDistinctIds = (
  (differ "old" "s1" refl, (differ "s3" "s1" refl, tt)),
  ((differ "s3" "old" refl, tt), (tt, tt)),
)

passes-drain_example : count_due 10 (passes launcher 2 desk).rows ≡ 0
passes-drain_example =
    passes-drain launcher 10 2 desk desk-HasDistinctIds (omega arith) (λ k. omega arith)
      (omega arith)

abbrev quiet : List (String × Option String)
quiet = ("d1", some "b1") ∷ ("d2", none) ∷ ("d3", some "b1") ∷ []

abbrev returns : ℕ → Refresh → Bool
returns k (Refresh.bundle_refresh id) = false
returns k (Refresh.standalone_refresh id) = true

resume_deployments-Once_example :
    (asked_for (bundle_refresh "b1") (resume_deployments returns quiet).asked ≡ 1)
    × (asked_for (standalone_refresh "b1") (resume_deployments returns quiet).asked ≡ 0)
    × ((resume_deployments returns quiet).resumed ≤ length (resume_deployments returns quiet).asked)
resume_deployments-Once_example = resume_deployments-Once returns quiet "b1"
