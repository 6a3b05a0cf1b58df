-- ===== src/Orchestrator/Agreement.antt =====
-- The pass of the use cases (app/usecase/orchestration/_promotion.py, `advance`) against that of the
-- service (app/services/release_orchestrator.py, `_advance`).
use release_controller.Prelude.{
  ℕ, zero, suc, ◌<◌, ◌≡◌, refl, sym, ap, ◌∙◌, inl, inr, true, List, [], ◌∷◌, ◌++◌, arith, length,
  any, All, All-append, Bool-cases, ok, err,
}
use mathlib.Core.List.{append_assoc, append-nil}
use release_controller.Workflow.{
  DeploymentStatus, waiting, promoting, deploying, success, failed, cancelled,
}
use release_controller.Deployment.{Text, Deployment, Session, Upstream, has_status}
use release_controller.Deployment.Lifecycle.{cancel}
use release_controller.Orchestrator.{
  succeeded, cancel_waiting, cancel_all, stop_bundle, fail_bundle, finish_success, session, Step,
  Context, step_of, context_of,
}
use release_controller.Orchestrator.Advance.{advance, Result, visit, settle, after_visit, walk}
use release_controller.Orchestrator.Rounds.{
  advance_in_rounds, carry_out, reason_of, any_succeeded, cancel_deployment, cancel_step,
  cancel_later, fail_release, stop_release, succeed_release, finish_release, decide, next_from,
  settle_round, after_action, rounds,
}

abbrev IsDone : Step → Type 0
IsDone s = s.deployment.status ≡ success

next_from-done :
    (before done ahead : List Step)
    → All IsDone done
    → next_from before (done ++ ahead) ≡ next_from (before ++ done) ahead
unfolding next_from decide
next_from-done before [] ahead h = ap (λ l. next_from l ahead) (sym (append-nil before))
next_from-done before (s ∷ done) ahead h =
    let rest = next_from (before ++ s ∷ []) (done ++ ahead) in
    ap (λ status. decide status before s (done ++ ahead) rest) h.0
    ∙ next_from-done (before ++ s ∷ []) done ahead h.1
    ∙ ap (λ l. next_from l ahead) (append_assoc before (s ∷ []) done)

any_succeeded-any : (steps : List Step) → any_succeeded steps ≡ any succeeded steps
unfolding any_succeeded
any_succeeded-any [] = refl
any_succeeded-any (s ∷ ss) = rw (any_succeeded-any ss) refl

module _ (u : Upstream) where
  cancel_later-cancel_all :
      (reason : Text) (steps : List Step) (c : Context)
      → cancel_later u reason steps c ≡ cancel_all u reason c steps
  unfolding cancel_later cancel_all cancel_waiting cancel_step cancel_deployment cancel
  cancel_later-cancel_all reason [] c = refl
  cancel_later-cancel_all reason (s ∷ ss) c = elim (Bool-cases (has_status s.deployment waiting)) [
    | inl e ↦ rw e (rw (cancel_later-cancel_all reason ss _) refl)
    | inr e ↦ rw e (rw (cancel_later-cancel_all reason ss c) refl)
  ]

  -- The use cases fail a bundle as the service does.
  stop_release-fail_bundle :
      (lost : Deployment) (steps : List Step) (c : Context)
      → stop_release u lost steps c ≡ fail_bundle u lost steps c
  unfolding stop_release fail_bundle fail_release stop_bundle
  stop_release-fail_bundle lost steps c =
      rw (cancel_later-cancel_all (reason_of lost) steps c)
        (rw (any_succeeded-any (cancel_all u (reason_of lost) c steps).0) refl)

  finish_release-finish_success : (c : Context) → finish_release u c ≡ finish_success u c
  unfolding finish_release finish_success succeed_release
  finish_release-finish_success c = refl

  abbrev Agrees : List Step → List Step → Context → ℕ → Type 0
  Agrees before ahead c n = rounds u (visit u) n (before ++ ahead) c ≡ (true, walk u before ahead c)

  -- Behind the same action both go on alike, if they agree on what follows a success.
  settle_round-Agrees :
      (status : DeploymentStatus) (step : Step) (before ahead : List Step) (c : Context) (n : ℕ)
      → (status ≡ success → Agrees (before ++ step ∷ []) ahead c n)
      → settle_round u (visit u) status step (before ++ step ∷ ahead) c (rounds u (visit u) n)
        ≡ (true, settle u status step before ahead c (λ c'. walk u (before ++ step ∷ []) ahead c'))
  unfolding settle_round settle
  settle_round-Agrees waiting step before ahead c n go = refl
  settle_round-Agrees promoting step before ahead c n go = refl
  settle_round-Agrees deploying step before ahead c n go = refl
  settle_round-Agrees cancelled step before ahead c n go = refl
  settle_round-Agrees failed step before ahead c n go =
      rw (stop_release-fail_bundle step.deployment (before ++ step ∷ ahead) c) refl
  settle_round-Agrees success step before ahead c n go =
      ap (λ l. rounds u (visit u) n l c) (sym (append_assoc before (step ∷ []) ahead)) ∙ go refl

  after_action-Agrees :
      (r : Result × Session) (before ahead : List Step) (c : Context) (n : ℕ)
      → (r.1.deployment.status ≡ success
          → Agrees (before ++ step_of r.1 ∷ []) ahead (context_of c r.1) n)
      → after_action u (visit u) r before ahead c (rounds u (visit u) n)
        ≡ (true, after_visit u r before ahead c (λ done c'. walk u (before ++ done ∷ []) ahead c'))
  unfolding after_action after_visit
  after_action-Agrees (err e, s) before ahead c n go = refl
  after_action-Agrees (ok x, s) before ahead c n go =
      settle_round-Agrees s.deployment.status (step_of s) before ahead (context_of c s) n go

  -- The end of a round of the loop, and what the walk does at the same step.
  abbrev Round : Step → List Step → List Step → Context → ℕ → DeploymentStatus → Type 0
  Round s before ss c n status =
      carry_out u (visit u) (decide status before s ss (next_from (before ++ s ∷ []) ss))
        (before ++ s ∷ ss) c (rounds u (visit u) n)
      ≡ (
        true,
        after_visit u (visit u s.deployment.status (session c s)) before ss c
            (λ done c'. walk u (before ++ done ∷ []) ss c'),
      )

  -- Where the visit leaves the step alone.
  resting :
      (s : Step) (before ss : List Step) (c : Context) (status : DeploymentStatus)
      → s.deployment.status ≡ status
      → visit u status (session c s) ≡ (ok tt, session c s)
      → after_visit u
          (visit u s.deployment.status (session c s))
          before
          ss
          c
          (λ done c'. walk u (before ++ done ∷ []) ss c')
        ≡ settle u status s before ss c (λ c'. walk u (before ++ s ∷ []) ss c')
  unfolding after_visit
  resting s before ss c status e v =
      let later : Step → Context → Result × List Step × Context =
        λ done c'. walk u (before ++ done ∷ []) ss c' in
      ap (λ q. after_visit u (visit u q (session c s)) before ss c later) e
      ∙ ap (λ r. after_visit u r before ss c later) v
      ∙ ap (λ q. settle u q s before ss c (later s)) e

  carry_out-Round :
      (status : DeploymentStatus) (s : Step) (before ss : List Step) (c : Context) (n : ℕ)
      → s.deployment.status ≡ status
      → (status ≡ success → Agrees (before ++ s ∷ []) ss c (suc n))
      → ((b : List Step) (c' : Context) → All IsDone b → Agrees b ss c' n)
      → All IsDone before
      → Round s before ss c n status
  unfolding carry_out decide visit rounds settle
  carry_out-Round waiting s before ss c n e skip go h =
      after_action-Agrees (visit u s.deployment.status (session c s)) before ss c n
        (λ won. go _ _ (All-append IsDone before _ h (won, tt)))
  carry_out-Round promoting s before ss c n e skip go h =
      after_action-Agrees (visit u s.deployment.status (session c s)) before ss c n
        (λ won. go _ _ (All-append IsDone before _ h (won, tt)))
  carry_out-Round deploying s before ss c n e skip go h =
      after_action-Agrees (visit u s.deployment.status (session c s)) before ss c n
        (λ won. go _ _ (All-append IsDone before _ h (won, tt)))
  carry_out-Round failed s before ss c n e skip go h =
      rw (stop_release-fail_bundle s.deployment (before ++ s ∷ ss) c)
        (ap (λ r. (true, r)) (sym (resting s before ss c failed e refl)))
  carry_out-Round cancelled s before ss c n e skip go h =
      ap (λ r. (true, r)) (sym (resting s before ss c cancelled e refl))
  carry_out-Round success s before ss c n e skip go h =
      let mine = before ++ s ∷ [] in
      let again = rounds u (visit u) n in
      let found = next_from mine ss in
      ap (λ l. carry_out u (visit u) found l c again) (sym (append_assoc before (s ∷ []) ss))
      ∙ sym (
          ap (λ d. carry_out u (visit u) d (mine ++ ss) c again)
            (next_from-done [] mine ss (All-append IsDone before _ h (e, tt))))
      ∙ skip refl
      ∙ ap (λ r. (true, r)) (sym (resting s before ss c success e refl))

  rounds-agree :
      (ahead before : List Step) (c : Context) (n : ℕ)
      → All IsDone before
      → length ahead < n
      → Agrees before ahead c n
  unfolding rounds carry_out walk next_from
  rounds-agree ahead before c zero h l = absurd (omega (arith, l))
  rounds-agree [] before c (suc n) h l =
      ap (λ d. carry_out u (visit u) d (before ++ []) c (rounds u (visit u) n))
        (next_from-done [] before [] h)
      ∙ ap (λ steps. (true, (ok tt, steps, finish_release u c))) (append-nil before)
      ∙ ap (λ done. (true, (ok tt, before, done))) (finish_release-finish_success c)
  rounds-agree (s ∷ ss) before c (suc n) h l =
      ap (λ d. carry_out u (visit u) d (before ++ s ∷ ss) c (rounds u (visit u) n))
        (next_from-done [] before (s ∷ ss) h)
      ∙ carry_out-Round s.deployment.status s before ss c n refl
          (λ won.
            rounds-agree ss (before ++ s ∷ []) c (suc n) (All-append IsDone before _ h (won, tt))
              (omega (arith, l)))
          (λ b c' k. rounds-agree ss b c' n k (omega (arith, l))) h

  -- The pass of the use cases, with its own failing and finishing of a bundle, settles within its
  -- bound of one round more than there are steps, and with the promotions and refreshes of the service
  -- it does to the bundle what the pass of the service does.
  pub advance_in_rounds-advance :
      (steps : List Step) (c : Context)
      → advance_in_rounds u (visit u) steps c ≡ (true, advance u steps c)
  unfolding advance_in_rounds advance
  advance_in_rounds-advance steps c = rounds-agree steps [] c (suc (length steps)) tt (omega arith)
