-- ===== src/Outbox.antt =====
-- The outbox of e-mails: its rows (app/db/models/scheduling.py, EmailOutbox) and their delivery
-- (app/services/notification_service.py, `deliver_pending`). The message itself is left out.
pub mod Attempts
mod Examples
use Prim.Native.Nat.{◌^◌, ◌*◌}
use release_controller.Prelude.{
  ℕ, zero, suc, ◌+◌, ◌-◌, ◌≤◌, ◌<◌, min, max, String, ◌≡◌, refl, sym, ap, ◌∙◌, ◌≢◌, ◌⊎◌, inl, inr,
  Bool, true, false, not, ◌&&◌, ◌||◌, Option, none, some, List, [], ◌∷◌, ◌++◌, map, arith, str_eq,
  eq_iff, length, length-append, any, All, All-append, ltb, leb, ◌==◌, if◌then◌else◌, Bool-cases,
  Option-cases, is_none, or_else, if-both, Outcome, ok, err, ◌>>=◌, or_text, Whenever,
  bind-Whenever, Whenever-bind,
}
use release_controller.Deployment.{Text, lit}

pub data EmailDeliveryStatus : Type 0 where
  pending processing sent failed : EmailDeliveryStatus

pub record EmailOutbox : Type 0 where
  pub id : String
  pub status : EmailDeliveryStatus
  pub attempts : ℕ
  pub next_attempt_at : ℕ
  pub claimed_at : Option ℕ
  pub last_error : Option Text
  pub created_at : ℕ
  pub updated_at : ℕ
  pub sent_at : Option ℕ

-- The settings, the clock, and whether `sender.send` returns; a question carries its number.
pub record Mailer : Type 0 where
  pub clock : ℕ → ℕ
  pub send : ℕ → EmailOutbox → Bool
  pub claim_timeout : ℕ
  pub max_attempts : ℕ
  pub retry_seconds : ℕ

-- `claimed_at <= stale_before`, which lies the time-out before the query and which a missing time
-- does not fulfil
abbrev claimed_before : ℕ → ℕ → Option ℕ → Bool
claimed_before timeout queried none = false
claimed_before timeout queried (some t) = leb (t + timeout) queried

-- Whether the status lets a dispatcher claim the row.
unfoldable pub is_claimable : ℕ → ℕ → EmailOutbox → Bool
is_claimable timeout queried row = elim row.status [
  | EmailDeliveryStatus.pending ↦ true
  | EmailDeliveryStatus.failed ↦ true
  | EmailDeliveryStatus.processing ↦ claimed_before timeout queried row.claimed_at
  | EmailDeliveryStatus.sent ↦ false
]

-- The claiming UPDATE: whether it met the row, and the row.
unfoldable pub claim : ℕ → ℕ → ℕ → EmailOutbox → Bool × EmailOutbox
claim timeout queried now row =
    if is_claimable timeout queried row
    then (
      true,
      record row {
        status = EmailDeliveryStatus.processing;
        claimed_at = some now;
        attempts = suc row.attempts;
        updated_at = now;
      },
    )
    else (false, row)

abbrev delivery_error : Text
delivery_error = lit "SMTP delivery failed; check SMTP configuration and server logs." ∷ []

-- A row, the outcomes of its sends, the latest first, and the number of questions.
pub record Delivery : Type 0 where
  pub row : EmailOutbox
  pub sends : List Bool
  pub ticks : ℕ

module _ (u : Mailer) where
  -- The condition of the query, with its two readings of the clock.
  unfoldable pub is_due : ℕ → ℕ → EmailOutbox → Bool
  is_due queried now row =
      is_claimable u.claim_timeout queried row
      && ltb row.attempts u.max_attempts
      && leb row.next_attempt_at now

  -- What is written after the send, of a row that this session has claimed and loaded.
  unfoldable pub on_send : Bool → ℕ → EmailOutbox → EmailOutbox
  on_send true k row = record row {
    status = EmailDeliveryStatus.sent;
    sent_at = some (u.clock k);
    last_error = none;
    claimed_at = none;
    updated_at = u.clock (suc k);
  }
  on_send false k row = record row {
    status = EmailDeliveryStatus.failed;
    last_error = some delivery_error;
    claimed_at = none;
    next_attempt_at = u.clock k + u.retry_seconds * 2 ^ (row.attempts - 1);
    updated_at = u.clock (suc k);
  }

  unfoldable pub on_claim : Bool × EmailOutbox → Delivery → Delivery
  on_claim (false, row) d = d
  on_claim (true, row) d =
      let answer = u.send d.ticks row in
      record {
        row = on_send answer (suc d.ticks) row;
        sends = answer ∷ d.sends;
        ticks = d.ticks + 3;
      }

  -- One row of the loop of `deliver_pending`, where the query was made at question `k`.
  unfoldable pub deliver : ℕ → Delivery → Delivery
  deliver k d =
      if is_due (u.clock k) (u.clock (suc k)) d.row
      then on_claim (claim u.claim_timeout (u.clock k) (u.clock d.ticks) d.row)
          (record d { ticks = suc d.ticks })
      else d

  -- `deliver_pending` as one row sees it, over so many passes.
  unfoldable pub passes : ℕ → Delivery → Delivery
  passes zero d = d
  passes (suc n) d = passes n (deliver d.ticks (record d { ticks = d.ticks + 2 }))
