-- ===== src/Retry.antt =====
-- The retries of upstream reads (app/integrations/retry.py). Seconds are natural numbers in a unit of
-- the caller's choice. `random.uniform` and the operation are parameters: the attempt stands first,
-- so that each attempt may be answered differently.
pub mod Attempts
mod Examples
use Prim.Native.Nat.{◌^◌, ◌*◌}
use release_controller.Prelude.{
  ℕ, zero, suc, min, Bool, Option, none, some, List, [], ◌∷◌, ◌==◌, if◌then◌else◌, Outcome, ok, err,
}

pub record RetryPolicy : Type 0 where
  pub attempts : ℕ
  pub base_seconds : ℕ
  pub max_seconds : ℕ

-- The upper end of the random delay.
unfoldable pub window : RetryPolicy → ℕ → ℕ
window policy attempt = min policy.max_seconds (policy.base_seconds * 2 ^ attempt)

unfoldable pub delay_for : (ℕ → ℕ → ℕ) → RetryPolicy → ℕ → ℕ
delay_for uniform policy attempt = uniform attempt (window policy attempt)

-- How a run ends: with an answer or an exception, or at `assert last_error is not None`.
pub record Run {ℓ κ} (E : Type ℓ) (A : Type κ) : Type (ℓ ⊔ κ) where
  pub answer : Option (Outcome E A)
  pub calls : ℕ
  pub slept : List ℕ

module _ {ℓ κ} {E : Type ℓ} {A : Type κ} where
  abbrev pub stop : Option (Outcome E A) → ℕ → Run E A
  stop answer calls = record { answer = answer; calls = calls; slept = [] }

  abbrev pub after_sleep : ℕ → Run E A → Run E A
  after_sleep delay run = record run { slept = delay ∷ run.slept }

  module _ (delay : ℕ → ℕ) (retry_on : E → Bool) (operation : ℕ → Outcome E A) where
    -- The end of one attempt, where `left` attempts follow and `rest` is what they do.
    unfoldable pub on_answer : ℕ → ℕ → Outcome E A → Run E A → Run E A
    on_answer left attempt (ok a) rest = stop (some (ok a)) (suc attempt)
    on_answer left attempt (err e) rest =
        if retry_on e
        then (if left == 0
            then stop (some (err e)) (suc attempt)
            else after_sleep (delay attempt) rest)
        else stop (some (err e)) (suc attempt)

    -- The loop from an attempt on, with so many attempts left.
    unfoldable pub retry_from : ℕ → ℕ → Run E A
    retry_from zero attempt = stop none attempt
    retry_from (suc left) attempt =
        on_answer left attempt (operation attempt) (retry_from left (suc attempt))

  unfoldable pub retry_read : RetryPolicy → (ℕ → ℕ → ℕ) → (E → Bool) → (ℕ → Outcome E A) → Run E A
  retry_read policy uniform retry_on operation =
      retry_from (delay_for uniform policy) retry_on operation policy.attempts 0
