-- ===== src/Deployment/Attempts.antt =====
-- How a promotion of a row that nobody has claimed can end (app/services/deployment_service.py,
-- `promote`).
use release_controller.Prelude.{
  Bool, true, false, Option, none, some, ◌≡◌, refl, ap, ◌∙◌, ◌⊎◌, inl, inr, arith, ok, err, Outcome,
}
use release_controller.Workflow.{WorkflowStage}
use release_controller.Registry.{ProjectComponent}
use release_controller.Drone.{DroneBuild, drone, other}
use release_controller.Drone.Builds.{Answer}
use release_controller.Deployment.{
  IsOpen, Session, Upstream, PlanCheck, plan_holds, plan_changed, plan_refused, plan_crashed,
  in_flight,
}
use release_controller.Deployment.Events.{tick}
use release_controller.Deployment.Promotion.{
  PromoteError, component_not_registered, is_claimable, sending, on_promotion, on_check, after_ci,
  dispatch, claim_for_promotion, after_claim, with_component, promote,
}
use release_controller.Deployment.Quiet.{is_cancelled}
use release_controller.Deployment.Sending.{dispatch-SendsOnce}

abbrev pub Result : Type 0
Result = Outcome PromoteError (Unit {0})

-- If the call raised, Drone may or may not have been asked: the deployment is still in flight.
abbrev StaysInFlight : Session → Result × Session → Type 0
StaysInFlight s r =
    in_flight s.deployment ≡ true
    → (e : PromoteError) → r.0 ≡ err e
    → in_flight r.1.deployment ≡ true

module _ (u : Upstream) where
  on_promotion-raises :
      (stage : WorkflowStage) (answer : Answer DroneBuild) (s : Session)
      → StaysInFlight s (on_promotion u stage answer s)
  unfolding on_promotion
  on_promotion-raises stage (ok b) s f e h = cc
  on_promotion-raises stage (err (drone x)) s f e h = cc
  on_promotion-raises stage (err other) s f e h = f

  sending-object : (c : ProjectComponent) (s : Session) → (sending u c s).deployment ≡ s.deployment
  sending-object c s = ground arith

  on_check-raises :
      (c : ProjectComponent) (stage : WorkflowStage) (check : PlanCheck) (s : Session)
      → StaysInFlight s (on_check u c stage check s)
  unfolding on_check
  on_check-raises c stage plan_changed s f e h = cc
  on_check-raises c stage (plan_refused x) s f e h = cc
  on_check-raises c stage plan_crashed s f e h = f
  on_check-raises c stage plan_holds s f e h =
      on_promotion-raises stage _ (sending u c s) (ap in_flight (sending-object c s) ∙ f) e h

  after_ci-raises :
      (c : ProjectComponent) (stage : WorkflowStage) (allowed : Bool) (s : Session)
      → StaysInFlight s (after_ci u c stage allowed s)
  unfolding after_ci
  after_ci-raises c stage true s f e h = on_check-raises c stage _ (tick s) f e h
  after_ci-raises c stage false s f e h = cc

  -- A claimed deployment after the attempt: neither waiting nor cancelled.
  pub record Attempted (r : Result × Session) : Type 0 where
    pub left : is_claimable r.1.deployment ≡ false
    pub alive : is_cancelled r.1.deployment ≡ false
    pub still_open : IsOpen r.1.release
    pub raised : (e : PromoteError) → r.0 ≡ err e → in_flight r.1.deployment ≡ true

  claim-wins :
      (s : Session)
      → is_claimable s.row ≡ true
      → ((claim_for_promotion u s).0 ≡ true)
        × (is_claimable (claim_for_promotion u s).1.deployment ≡ false)
        × (is_cancelled (claim_for_promotion u s).1.deployment ≡ false)
        × (in_flight (claim_for_promotion u s).1.deployment ≡ true)
        × IsOpen (claim_for_promotion u s).1.release
  unfolding claim_for_promotion
  claim-wins s h = ground arith

  after_claim-Attempted :
      (c : ProjectComponent) (stage : WorkflowStage) (won : Bool) (s : Session)
      → won ≡ true
      → is_claimable s.deployment ≡ false
      → is_cancelled s.deployment ≡ false
      → in_flight s.deployment ≡ true
      → IsOpen s.release
      → Attempted (after_claim u c stage (won, s))
  unfolding after_claim dispatch
  after_claim-Attempted c stage false s e k a f o = absurd (cc)
  after_claim-Attempted c stage true s e k a f o =
      let once = dispatch-SendsOnce u c stage s in
      record {
        left = once.kept k;
        alive = once.alive a;
        still_open = once.still_open o;
        raised = λ x h. after_ci-raises c stage _ (tick s) f x h;
      }

  with_component-cases :
      (found : Option ProjectComponent) (s : Session)
      → is_claimable s.row ≡ true
      → (with_component u found s ≡ (err component_not_registered, s))
        ⊎ Attempted (with_component u found s)
  unfolding with_component
  with_component-cases none s h = inl refl
  with_component-cases (some c) s h =
      let (won, left, alive, flying, open_bundle) = claim-wins s h in
      inr (after_claim-Attempted c _ _ _ won left alive flying open_bundle)

  -- `promote` of a deployment whose row can be claimed either raises because its component is not
  -- registered, with nothing changed, or leaves it neither waiting nor cancelled, its bundle still open,
  -- and in flight if it raised.
  pub promote-cases :
      (s : Session)
      → is_claimable s.row ≡ true
      → (promote u s ≡ (err component_not_registered, tick s)) ⊎ Attempted (promote u s)
  unfolding promote
  promote-cases s h = with_component-cases _ (tick s) h
