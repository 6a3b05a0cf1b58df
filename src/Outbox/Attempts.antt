-- ===== src/Outbox/Attempts.antt =====
-- How often an e-mail is sent (app/services/notification_service.py: `deliver_pending`).
use release_controller.Prelude.{
  ℕ, zero, suc, ◌+◌, ◌-◌, ◌≤◌, ◌<◌, max, ◌≡◌, refl, Bool, true, false, some, List, [], ◌∷◌, arith,
  length, if-both,
}
use release_controller.Outbox.{
  is_due, passes, deliver, EmailDeliveryStatus, EmailOutbox, Mailer, is_claimable, claim, Delivery,
  on_send, on_claim,
}

abbrev pub successes : List Bool → ℕ
successes [] = 0
successes (true ∷ rs) = suc (successes rs)
successes (false ∷ rs) = successes rs

-- Whether a row can still be sent with success.
abbrev pub room : EmailDeliveryStatus → ℕ
room EmailDeliveryStatus.sent = 0
room _ = 1

-- From one state of a delivery to a later one.
pub record Kept (most : ℕ) (d d' : Delivery) : Type 0 where
  pub counted : d'.row.attempts + length d.sends ≡ d.row.attempts + length d'.sends
  pub bounded : d'.row.attempts ≤ max d.row.attempts most
  pub once : successes d'.sends + room d'.row.status ≤ successes d.sends + room d.row.status

Kept-both : (most : ℕ) (d d' d'' : Delivery) → Kept most d d' → Kept most d' d'' → Kept most d d''
Kept-both most d d' d'' h k = record {
  counted = omega (arith, h.counted, k.counted);
  bounded = omega (arith, h.bounded, k.bounded);
  once = omega (arith, h.once, k.once);
}

module _ (u : Mailer) where
  on_send-counts :
      (answer : Bool) (k : ℕ) (row : EmailOutbox) (rs : List Bool)
      → room row.status ≡ 1
      → ((on_send u answer k row).attempts ≡ row.attempts)
        × (successes (answer ∷ rs) + room (on_send u answer k row).status ≤ suc (successes rs))
  unfolding on_send
  on_send-counts true k row rs e = (refl, omega arith)
  on_send-counts false k row rs e = (refl, omega arith)

  claimable-room :
      (timeout queried : ℕ) (row : EmailOutbox)
      → is_claimable timeout queried row ≡ true
      → room row.status ≡ 1
  unfolding is_claimable
  claimable-room timeout queried row e = ground arith

  on_claim-Kept :
      (timeout queried now : ℕ) (d : Delivery)
      → d.row.attempts < u.max_attempts
      → is_claimable timeout queried d.row ≡ true
      → Kept u.max_attempts d (on_claim u (claim timeout queried now d.row) d)
  unfolding claim on_claim
  on_claim-Kept timeout queried now d few open_row =
      let taken : EmailOutbox = record d.row {
        status = EmailDeliveryStatus.processing;
        claimed_at = some now;
        attempts = suc d.row.attempts;
        updated_at = now;
      } in
      let answer = u.send d.ticks taken in
      let counts = on_send-counts answer (suc d.ticks) taken d.sends refl in
      let free = claimable-room timeout queried d.row open_row in
      rw open_row record {
        counted = omega (arith, counts.0);
        bounded = omega (arith, counts.0, few);
        once = omega (arith, counts.1, free);
      }

  deliver-Kept : (k : ℕ) (d : Delivery) → Kept u.max_attempts d (deliver u k d)
  unfolding deliver is_due
  deliver-Kept k d =
      if-both (Kept u.max_attempts d) (is_due u (u.clock k) (u.clock (suc k)) d.row) _ _
        (λ e.
          let kept =
            on_claim-Kept u.claim_timeout (u.clock k) (u.clock d.ticks)
              (record d { ticks = suc d.ticks }) (ground arith) (ground arith) in
          record { counted = kept.counted; bounded = kept.bounded; once = kept.once })
        (λ _. record { counted = refl; bounded = omega arith; once = omega arith })

  passes-Kept : (n : ℕ) (d : Delivery) → Kept u.max_attempts d (passes u n d)
  unfolding passes
  passes-Kept zero d = record { counted = refl; bounded = omega arith; once = omega arith }
  passes-Kept (suc n) d =
      let start : Delivery = record d { ticks = d.ticks + 2 } in
      let step = deliver-Kept d.ticks start in
      let rest = passes-Kept n (deliver u d.ticks start) in
      record {
        counted = omega (arith, step.counted, rest.counted);
        bounded = omega (arith, step.bounded, rest.bounded);
        once = omega (arith, step.once, rest.once);
      }

  -- However many passes one dispatcher makes and however the sends end, an e-mail that has been
  -- attempted no more often than is allowed is sent no more often than is left of that, at most one
  -- send succeeds, and after it, or if it was SENT before, the e-mail is SENT.
  pub passes-few :
      (n k : ℕ) (row : EmailOutbox)
      → row.attempts ≤ u.max_attempts
      → (length (passes u n (record { row = row; sends = []; ticks = k })).sends
          ≤ u.max_attempts - row.attempts)
        × (successes (passes u n (record { row = row; sends = []; ticks = k })).sends
              + room (passes u n (record { row = row; sends = []; ticks = k })).row.status
            ≤ room row.status)
  passes-few n k row few =
      let start : Delivery = record { row = row; sends = []; ticks = k } in
      let kept = passes-Kept n start in
      (omega (arith, kept.counted, kept.bounded, few), omega (arith, kept.once))
