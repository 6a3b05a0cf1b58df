-- ===== src/Schedule/Upkeep.antt =====
-- What else writes to a schedule: `ScheduleService.cancel` (app/services/schedule_service.py) and
-- `release_stale_schedule_claims` (app/services/recovery_service.py).
use release_controller.Prelude.{
  ℕ, zero, suc, Bool, true, false, ◌&&◌, Option, none, some, List, [], ◌∷◌, leb, if◌then◌else◌,
  is_none, Outcome, ok, err,
}
use release_controller.Deployment.{Text, lit}
use release_controller.Schedule.{
  true, Option, List, ℕ, Bool, Text, ScheduleStatus, is_pending, is_claimed, DeploymentSchedule,
}

-- The write of a cancellation. The UPDATE names the primary key alone.
unfoldable pub write_cancellation : ℕ → DeploymentSchedule → DeploymentSchedule
write_cancellation now row = record row {
  status = ScheduleStatus.cancelled;
  updated_at = now;
  finished_at = some now;
}

pub data ScheduleError : Type 0 where
  not_found invalid_transition : ScheduleError

-- `cancel`, by one session and with nothing in between
unfoldable pub cancel : ℕ → Option DeploymentSchedule → Outcome ScheduleError DeploymentSchedule
cancel now none = err not_found
cancel now (some row) =
    if is_pending row.status then ok (write_cancellation now row) else err invalid_transition

abbrev pub is_unlinked : DeploymentSchedule → Bool
is_unlinked row = is_none row.release_bundle_id && is_none row.deployment_id

abbrev pub interruption_message : Text
interruption_message =
    lit "Interrupted while starting the deployment. A promotion may already have been created in "
    ∷ lit "Drone; check the deployments list for this target before scheduling it again."
    ∷ []

-- The UPDATE of the sweep: whether it met the row, and the row.
unfoldable pub release_claim : ℕ → DeploymentSchedule → Bool × DeploymentSchedule
release_claim now row =
    if is_claimed row.status && is_unlinked row
    then (
      true,
      record row {
        status = ScheduleStatus.failed;
        error_message = some interruption_message;
        finished_at = some now;
        updated_at = now;
      },
    )
    else (false, row)

abbrev started_before : ℕ → Option ℕ → Bool
started_before limit none = true
started_before limit (some t) = leb t limit

-- The query of the sweep.
unfoldable pub is_stale : ℕ → DeploymentSchedule → Bool
is_stale limit row = is_claimed row.status && is_unlinked row && started_before limit row.started_at

-- The sweep over as many stale rows as its batch has room for (`recovery_batch_size`): how many were
-- released, and the rows.
unfoldable pub release_stale_schedule_claims :
    ℕ → ℕ → ℕ → List DeploymentSchedule → ℕ × List DeploymentSchedule
release_stale_schedule_claims now limit batch [] = (0, [])
release_stale_schedule_claims now limit zero (row ∷ rows) = (0, row ∷ rows)
release_stale_schedule_claims now limit (suc batch) (row ∷ rows) =
    let found = release_stale_schedule_claims now limit batch rows in
    let passed = release_stale_schedule_claims now limit (suc batch) rows in
    if is_stale limit row
    then (suc found.0, (release_claim now row).1 ∷ found.1)
    else (passed.0, row ∷ passed.1)
