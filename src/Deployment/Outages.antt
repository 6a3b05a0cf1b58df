-- ===== src/Deployment/Outages.antt =====
-- What an outage of Drone leaves behind (app/services/deployment_service.py: `refresh`,
-- `_record_poll_failure`), poll after poll, each with the commit of its caller.
use Prim.Native.Nat.{◌*◌}
use release_controller.Prelude.{
  ℕ, zero, suc, ◌+◌, ◌<◌, String, ◌≡◌, false, Option, some, length, if◌then◌else◌, err,
}
use release_controller.Drone.{code_of, CallError}
use release_controller.Deployment.{Deployment, Session, Upstream}
use release_controller.Deployment.Events.{commit}
use release_controller.Deployment.Polling.{is_new_condition, timed_out}
use release_controller.Deployment.Refreshing.{asked_build, refresh}

-- The number of events that the first failed poll of an outage writes.
abbrev pub news : Option String → String → ℕ
news old code = if is_new_condition old code then 1 else 0

module _ (u : Upstream) where
  -- So many polls, one after the other, each of them committed.
  unfoldable pub polls : ℕ → Session → Session
  polls zero s = s
  polls (suc n) s = polls n (commit (refresh u s))

  -- Whenever the build is asked for on behalf of this component, the answer is an error of this code.
  abbrev pub IsDown : ℕ → String → String → Type 0
  IsDown number component_id code =
      (t : Session)
      → t.deployment.component_id ≡ component_id
      → (e : CallError) × (asked_build u number t ≡ err e) × (code_of e ≡ code)

  -- The clock stays within the time-out of the workflow while so many questions are put.
  abbrev pub IsInTime : Option ℕ → ℕ → Type 0
  IsInTime started limit =
      (t : Session) → t.deployment.started_at ≡ started → t.ticks < limit → timed_out u t ≡ false

  -- After `n` failed polls: all of them are counted, and the promotion is as it was.
  pub record During (n : ℕ) (s t : Session) : Type 0 where
    pub counted : t.deployment.poll_failure_count ≡ s.deployment.poll_failure_count + n
    pub same_status : t.deployment.status ≡ s.deployment.status
    pub same_build : t.deployment.promotion_build_number ≡ s.deployment.promotion_build_number
    pub same_started : t.deployment.started_at ≡ s.deployment.started_at
    pub same_component : t.deployment.component_id ≡ s.deployment.component_id
    pub same_sent : t.sent ≡ s.sent
    pub questions : t.ticks ≡ s.ticks + 4 * n

  -- One poll of an outage, with its commit.
  pub record Once (code : String) (s t : Session) : Type 0 where
    pub kept : During 1 s t
    pub has_code : t.deployment.poll_error_code ≡ some code
    pub logged : length t.events ≡ news s.deployment.poll_error_code code + length s.events
    pub in_row : t.row ≡ t.deployment
