-- ===== src/Retry/Examples.antt =====
-- A read that fails twice and is answered the third time (app/integrations/retry.py).
use release_controller.Prelude.{
  ℕ, zero, suc, String, true, some, [], ◌∷◌, ◌≡◌, refl, arith, Outcome, ok, err,
}
use release_controller.Retry.{RetryPolicy, window, delay_for, on_answer, retry_from, retry_read}
use release_controller.Retry.Attempts.{Tried, retry_read-Tried}

abbrev three : RetryPolicy
three = record { attempts = 3; base_seconds = 1; max_seconds = 8 }

abbrev flaky : ℕ → Outcome String ℕ
flaky zero = err "timeout"
flaky (suc zero) = err "timeout"
flaky (suc (suc n)) = ok 7

retry_read-Tried_example :
    Tried (λ e. true) flaky 0 3 8 (retry_read three (λ k w. w) (λ e. true) flaky)
retry_read-Tried_example =
    retry_read-Tried three (λ k w. w) (λ e. true) flaky (omega arith) (λ k w. omega arith)

-- The third call answers, after one and two units of sleep.
flaky_runs :
    retry_read three (λ k w. w) (λ e. true) flaky
    ≡ record { answer = some (ok 7); calls = 3; slept = 1 ∷ 2 ∷ [] }
unfolding retry_read retry_from on_answer delay_for window
flaky_runs = refl
