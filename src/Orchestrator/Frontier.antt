-- ===== src/Orchestrator/Frontier.antt =====
-- The shape of a bundle under `_advance` of app/services/release_orchestrator.py: steps that
-- succeeded, then the frontier, then steps that wait, or that were cancelled behind a failure.
use release_controller.Prelude.{true, false, List, [], ◌∷◌, ◌++◌, All, ◌≡◌, ◌⊎◌, inl, inr, arith}
use release_controller.Workflow.{waiting, failed, cancelled}
use release_controller.Deployment.{Text, Deployment, Upstream, has_status, in_flight}
use release_controller.Deployment.Lifecycle.{cancel}
use release_controller.Deployment.Promotion.{is_claimable}
use release_controller.Orchestrator.{
  Step, Context, succeeded, cancel_waiting, cancel_all, fail_bundle,
}

abbrev pub Idle : Step → Type 0
Idle step = (has_status step.deployment waiting ≡ true) × (is_claimable step.row ≡ true)

abbrev pub Stopped : Step → Type 0
Stopped step = has_status step.deployment cancelled ≡ true

abbrev pub Succeeded : Step → Type 0
Succeeded step = succeeded step ≡ true

abbrev pub Failed : Step → Type 0
Failed step = has_status step.deployment failed ≡ true

-- At most one step is at work or has failed, all before it have succeeded, and none behind it has
-- begun.
pub data Frontier : List Step → Type 0 where
  complete : Frontier []
  past : {s : Step} {ss : List Step} → Succeeded s → Frontier ss → Frontier (s ∷ ss)
  at_work :
      {s : Step} {ss : List Step} → in_flight s.deployment ≡ true → All Idle ss → Frontier (s ∷ ss)
  to_do : {s : Step} {ss : List Step} → Idle s → All Idle ss → Frontier (s ∷ ss)
  stopped : {s : Step} {ss : List Step} → Failed s → All Stopped ss → Frontier (s ∷ ss)

-- The shape at the moment that `_fail_bundle` is called.
pub data Broken : List Step → Type 0 where
  further : {s : Step} {ss : List Step} → Succeeded s → Broken ss → Broken (s ∷ ss)
  failing :
      {s : Step} {ss : List Step} → Failed s → All (λ x. Idle x ⊎ Stopped x) ss → Broken (s ∷ ss)

pub Frontier-Idle : (ss : List Step) → All Idle ss → Frontier ss
Frontier-Idle [] h = complete
Frontier-Idle (s ∷ ss) h = to_do h.0 h.1

pub Frontier-before :
    (before ss : List Step) → All Succeeded before → Frontier ss → Frontier (before ++ ss)
Frontier-before [] ss h f = f
Frontier-before (s ∷ before) ss h f = past h.0 (Frontier-before before ss h.1 f)

pub Frontier-done : (before : List Step) → All Succeeded before → Frontier before
Frontier-done [] h = complete
Frontier-done (s ∷ before) h = past h.0 (Frontier-done before h.1)

pub Broken-before :
    (before ss : List Step) → All Succeeded before → Broken ss → Broken (before ++ ss)
Broken-before [] ss h b = b
Broken-before (s ∷ before) ss h b = further h.0 (Broken-before before ss h.1 b)

pub Idle-or_Stopped : (ss : List Step) → All Idle ss → All (λ x. Idle x ⊎ Stopped x) ss
Idle-or_Stopped [] h = tt
Idle-or_Stopped (s ∷ ss) h = (inl h.0, Idle-or_Stopped ss h.1)

pub Stopped-already : (ss : List Step) → All Stopped ss → All (λ x. Idle x ⊎ Stopped x) ss
Stopped-already [] h = tt
Stopped-already (s ∷ ss) h = (inr h.0, Stopped-already ss h.1)

module _ (u : Upstream) where
  cancel_waiting-Stopped :
      (reason : Text) (c : Context) (s : Step)
      → Idle s ⊎ Stopped s
      → Stopped (cancel_waiting u reason c s).0
  unfolding cancel_waiting cancel
  cancel_waiting-Stopped reason c s h = ground arith

  pub cancel_waiting_other :
      (reason : Text) (c : Context) (s : Step)
      → has_status s.deployment waiting ≡ false
      → cancel_waiting u reason c s ≡ (s, c)
  unfolding cancel_waiting
  cancel_waiting_other reason c s h = rw h

  cancel_all-Stopped :
      (reason : Text) (c : Context) (ss : List Step)
      → All (λ x. Idle x ⊎ Stopped x) ss
      → All Stopped (cancel_all u reason c ss).0
  unfolding cancel_all
  cancel_all-Stopped reason c [] h = tt
  cancel_all-Stopped reason c (s ∷ ss) h = (
    cancel_waiting-Stopped reason c s h.0,
    cancel_all-Stopped reason (cancel_waiting u reason c s).1 ss h.1,
  )

  -- Cancelling what waits behind the failure makes the shape whole again.
  cancel_all-Frontier :
      (reason : Text) (c : Context) (ss : List Step)
      → Broken ss
      → Frontier (cancel_all u reason c ss).0
  unfolding cancel_all
  cancel_all-Frontier reason c [] b = elim b [ ]
  cancel_all-Frontier reason c (s ∷ ss) (further h b) =
      let same = cancel_waiting_other reason c s (ground arith) in
      rw same (past h (cancel_all-Frontier reason c ss b))
  cancel_all-Frontier reason c (s ∷ ss) (failing h b) =
      let same = cancel_waiting_other reason c s (ground arith) in
      rw same (stopped h (cancel_all-Stopped reason c ss b))

  pub fail_bundle-Frontier :
      (d : Deployment) (c : Context) (ss : List Step)
      → Broken ss
      → Frontier (fail_bundle u d ss c).0
  unfolding fail_bundle
  fail_bundle-Frontier d c ss b = cancel_all-Frontier _ c ss b
