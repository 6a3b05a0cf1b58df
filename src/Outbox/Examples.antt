-- ===== src/Outbox/Examples.antt =====
-- An e-mail that goes out at the second attempt.
use release_controller.Prelude.{
  ◌+◌, ◌≤◌, ◌≡◌, refl, true, false, none, [], ◌∷◌, arith, length, ◌==◌,
}
use release_controller.Outbox.{
  EmailDeliveryStatus, EmailOutbox, Mailer, passes, deliver, is_due, is_claimable, claim, on_claim,
  on_send,
}
use release_controller.Outbox.Attempts.{successes, room, passes-few}

abbrev notice : EmailOutbox
notice = record {
  id = "m1";
  status = EmailDeliveryStatus.pending;
  attempts = 0;
  next_attempt_at = 0;
  claimed_at = none;
  last_error = none;
  created_at = 0;
  updated_at = 0;
  sent_at = none;
}

abbrev mailer : Mailer
mailer = record {
  clock = λ k. 100 + k;
  send = λ k row. row.attempts == 2;
  claim_timeout = 60;
  max_attempts = 3;
  retry_seconds = 1;
}

passes-few_example :
    (length (passes mailer 5 (record { row = notice; sends = []; ticks = 0 })).sends ≤ 3)
    × (successes (passes mailer 5 (record { row = notice; sends = []; ticks = 0 })).sends
          + room (passes mailer 5 (record { row = notice; sends = []; ticks = 0 })).row.status
        ≤ 1)
passes-few_example = passes-few mailer 5 0 notice (omega arith)

second_attempt :
    (passes mailer 5 (record { row = notice; sends = []; ticks = 0 })).sends ≡ true ∷ false ∷ []
unfolding passes deliver is_due is_claimable claim on_claim on_send
second_attempt = refl
