-- ===== src/Retry/Attempts.antt =====
-- How a retried read ends (app/integrations/retry.py, `retry_read`).
use mathlib.Core.Path.{subst}
use release_controller.Prelude.{
  ℕ, zero, suc, ◌+◌, ◌≤◌, ◌<◌, Bool, true, false, some, length, All, ◌≡◌, refl, ◌⊎◌, inl, inr,
  arith, Outcome, ok, err, ◌==◌, if-both, Bool-cases,
}
use release_controller.Retry.{
  RetryPolicy, window, Run, stop, after_sleep, delay_for, on_answer, retry_from, retry_read,
}

module _ {ℓ κ} {E : Type ℓ} {A : Type κ} (retry_on : E → Bool) (operation : ℕ → Outcome E A) where
  -- The attempt failed in a way that is worth another one.
  abbrev pub IsTransient : ℕ → Type (ℓ ⊔ κ)
  IsTransient k = (e : E) × (operation k ≡ err e) × (retry_on e ≡ true)

  -- The attempt was answered, or failed in a way that is not worth another one.
  abbrev pub IsFinal : ℕ → Type (ℓ ⊔ κ)
  IsFinal k =
      ((a : A) × (operation k ≡ ok a)) ⊎ ((e : E) × (operation k ≡ err e) × (retry_on e ≡ false))

  -- What is true of a run over the attempts from `first` up to `end`: `last` was its last attempt.
  pub record Tried (first end most : ℕ) (r : Run E A) : Type (ℓ ⊔ κ) where
    pub last : ℕ
    pub lower : first ≤ last
    pub upper : last < end
    pub counted : r.calls ≡ suc last
    pub same_answer : r.answer ≡ some (operation last)
    pub earlier : (k : ℕ) → first ≤ k → k < last → IsTransient k
    pub why : IsFinal last ⊎ (suc last ≡ end)
    pub pauses : length r.slept + first ≡ last
    pub short : All (λ d. d ≤ most) r.slept

  Tried-now :
      (attempt end most : ℕ) (o : Outcome E A)
      → operation attempt ≡ o
      → attempt < end
      → IsFinal attempt ⊎ (suc attempt ≡ end)
      → Tried attempt end most (stop (some o) (suc attempt))
  Tried-now attempt end most o e below why = record {
    last = attempt;
    lower = omega arith;
    upper = below;
    counted = refl;
    same_answer = rw e refl;
    earlier = λ k l h. absurd (omega (arith, l, h));
    why = why;
    pauses = omega arith;
    short = tt;
  }

  Tried-again :
      (attempt end most d : ℕ) (r : Run E A)
      → IsTransient attempt
      → d ≤ most
      → Tried (suc attempt) end most r
      → Tried attempt end most (after_sleep d r)
  Tried-again attempt end most d r transient small t = record {
    last = t.last;
    lower = omega (arith, t.lower);
    upper = t.upper;
    counted = t.counted;
    same_answer = t.same_answer;
    earlier = λ k l h. elim (Bool-cases (k == attempt)) [
      | inl e ↦ let same : attempt ≡ k = ground arith in subst IsTransient same transient
      | inr e ↦ t.earlier k (ground arith) h
    ];
    why = t.why;
    pauses = omega (arith, t.pauses);
    short = (small, t.short);
  }

  module _ (delay : ℕ → ℕ) (most : ℕ) (fair : (k : ℕ) → delay k ≤ most) where
    on_answer-Tried :
        (left attempt end : ℕ) (o : Outcome E A) (rest : Run E A)
        → operation attempt ≡ o
        → attempt + suc left ≡ end
        → (0 < left → Tried (suc attempt) end most rest)
        → Tried attempt end most (on_answer delay retry_on operation left attempt o rest)
    unfolding on_answer
    on_answer-Tried left attempt end (ok a) rest e size go =
        Tried-now attempt end most (ok a) e (omega arith) (inl (inl (a, e)))
    on_answer-Tried left attempt end (err x) rest e size go =
        if-both (Tried attempt end most) (retry_on x) _ _
          (λ again.
            if-both (Tried attempt end most) (left == 0) _ _
              (λ over. Tried-now attempt end most (err x) e (omega arith) (inr (ground arith)))
              (λ more.
                Tried-again attempt end most (delay attempt) rest (x, e, again) (fair attempt)
                  (go (ground arith))))
          (λ fatal. Tried-now attempt end most (err x) e (omega arith) (inl (inr (x, e, fatal))))

    retry_from-Tried :
        (left attempt end : ℕ)
        → attempt + suc left ≡ end
        → Tried attempt end most (retry_from delay retry_on operation (suc left) attempt)
    unfolding retry_from
    retry_from-Tried zero attempt end size =
        on_answer-Tried zero attempt end (operation attempt) _ refl size
          (λ h. absurd (omega (arith, h)))
    retry_from-Tried (suc left) attempt end size =
        on_answer-Tried (suc left) attempt end (operation attempt) _ refl size
          (λ h. retry_from-Tried left (suc attempt) end (omega arith))

-- If at least one attempt is allowed and no random delay exceeds its window, a read ends after at
-- most the allowed attempts: with what its last attempt gave, which was an answer, an exception that
-- is not to be retried, or the last attempt allowed. All attempts before it failed with exceptions to
-- be retried, after each of them the caller slept once, and no sleep exceeded the policy's maximum.
pub retry_read-Tried {ℓ κ} :
    {E : Type ℓ} {A : Type κ} (policy : RetryPolicy) (uniform : ℕ → ℕ → ℕ) (retry_on : E → Bool)
    (operation : ℕ → Outcome E A)
    → 0 < policy.attempts
    → ((k w : ℕ) → uniform k w ≤ w)
    → Tried retry_on operation 0 policy.attempts policy.max_seconds
        (retry_read policy uniform retry_on operation)
unfolding retry_read delay_for window
retry_read-Tried policy uniform retry_on operation some_attempt fair = counted policy.attempts refl
  where
    short : (k : ℕ) → delay_for uniform policy k ≤ policy.max_seconds
    short k = omega (arith, fair k (window policy k))

    counted :
        (n : ℕ)
        → n ≡ policy.attempts
        → Tried retry_on operation 0 policy.attempts policy.max_seconds
            (retry_from (delay_for uniform policy) retry_on operation n 0)
    counted zero e = absurd (omega arith)
    counted (suc left) e =
        retry_from-Tried retry_on operation (delay_for uniform policy) policy.max_seconds short left
          0 policy.attempts (omega arith)
