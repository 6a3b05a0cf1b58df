-- ===== src/Deployment/Polling.antt =====
-- What a poll writes down when Drone cannot be reached, and when it can again
-- (app/services/deployment_service.py: the methods on poll failures and `_timed_out`).
use release_controller.Prelude.{
  ℕ, String, Bool, true, false, not, Option, none, some, [], ◌∷◌, ◌+◌, ltb, str_eq, if◌then◌else◌,
}
use release_controller.Workflow.{WorkflowStage, upstream_unavailable, upstream_recovered}
use release_controller.Deployment.{lit, Text, Session, Upstream}
use release_controller.Deployment.Events.{tick, emit}

-- `deployment.poll_error_code != error_code`
abbrev pub is_new_condition : Option String → String → Bool
is_new_condition none code = true
is_new_condition (some old) code = not (str_eq old code)

abbrev poll_message : Text
poll_message = lit "Drone polling could not confirm deployment state" ∷ []

module _ (u : Upstream) where
  unfoldable pub record_poll_failure : WorkflowStage → String → Session → Session
  record_poll_failure stage code s =
      let first_occurrence = is_new_condition s.deployment.poll_error_code code in
      let noted = tick (record s {
        deployment = record s.deployment {
          poll_error_code = some code;
          poll_error_message = some poll_message;
          poll_failure_count = s.deployment.poll_failure_count + 1;
          updated_at = u.clock s.ticks;
        };
      }) in
      if first_occurrence
      then emit u stage upstream_unavailable (some code) (some poll_message) noted
      else noted

  abbrev pub recovered : WorkflowStage → Option String → Session → Session
  recovered stage none s = s
  recovered stage (some code) s =
      emit u stage upstream_recovered none
        (some (lit "Drone is reachable again after " ∷ lit code ∷ []))
        (tick (record s {
          deployment = record s.deployment {
            poll_error_code = none;
            poll_error_message = none;
            poll_failure_count = 0;
            updated_at = u.clock s.ticks;
          };
        }))

  unfoldable pub clear_poll_failure : WorkflowStage → Session → Session
  clear_poll_failure stage s = recovered stage s.deployment.poll_error_code s

  abbrev overdue : Option ℕ → ℕ → Bool
  overdue none now = false
  overdue (some started) now = ltb (started + u.timeout) now

  -- `_timed_out`; the caller counts the reading of the clock.
  unfoldable pub timed_out : Session → Bool
  timed_out s = overdue s.deployment.started_at (u.clock s.ticks)
