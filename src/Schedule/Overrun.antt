-- ===== src/Schedule/Overrun.antt =====
-- A claimed schedule under cancellations, sweeps and further claims
-- (app/services/schedule_service.py: `cancel`, `_run_one`; app/services/recovery_service.py).
use release_controller.Prelude.{
  ℕ, zero, suc, String, ◌≡◌, refl, ap, ◌∙◌, Bool, true, false, ◌&&◌, Option, none, some, List, [],
  ◌∷◌, ◌++◌, arith, All, if-both,
}
use release_controller.Schedule.{ScheduleStatus, is_pending, is_claimed, DeploymentSchedule, Launch}
use release_controller.Schedule.Runner.{selection_for, legacy_selection, claim, launch_of, finish}
use release_controller.Schedule.Upkeep.{write_cancellation, is_unlinked, release_claim}
use release_controller.Schedule.Claims.{
  Pool, Move, claiming, launching, ending, checking, cancelling, sweeping, apply, run, untouched,
  cancel_next,
}

-- What may happen beside a runner at work, but for the launches and the ends of others.
abbrev pub is_interruption : Move → Bool
is_interruption launching = false
is_interruption (ending now answer) = false
is_interruption _ = true

-- So many cancellations that come up to the test of the status.
abbrev pub checks : ℕ → List Move
checks zero = []
checks (suc n) = checking ∷ checks n

-- A runner is between its claim and its end.
record Under (launch : Launch) (claimed : ℕ) (launched : List Launch) (p : Pool) : Type 0 where
  not_pending : is_pending p.row.status ≡ false
  same_launch : launch_of p.row ≡ some launch
  same_claimed : p.claimed ≡ claimed
  same_launched : p.launched ≡ launched

apply-at_work : (m : Move) (p : Pool) → is_interruption m ≡ true → (apply m p).at_work ≡ p.at_work
unfolding apply claim
apply-at_work (claiming now) p e = ground arith
apply-at_work launching p e = absurd (cc)
apply-at_work (ending now answer) p e = absurd (cc)
apply-at_work checking p e = ground arith
apply-at_work (cancelling now) p e = ground arith
apply-at_work (sweeping now) p e = refl

write_cancellation-launch_of :
    (now : ℕ) (row : DeploymentSchedule) → launch_of (write_cancellation now row) ≡ launch_of row
unfolding write_cancellation launch_of selection_for legacy_selection
write_cancellation-launch_of now row = refl

-- The columns that a claim writes do not matter for the launch.
write_start-launch_of :
    (t : ℕ) (row : DeploymentSchedule)
    → launch_of
        (record row { status = ScheduleStatus.running; started_at = some t; updated_at = t })
      ≡ launch_of row
unfolding launch_of selection_for legacy_selection
write_start-launch_of t row = refl

release_claim-launch_of :
    (now : ℕ) (row : DeploymentSchedule) → launch_of (release_claim now row).1 ≡ launch_of row
unfolding release_claim launch_of selection_for legacy_selection
release_claim-launch_of now row =
    if-both (λ (r : Bool × DeploymentSchedule). launch_of r.1 ≡ launch_of row)
      (is_claimed row.status && is_unlinked row) _ _ (λ _. refl) (λ _. refl)

release_claim-not_pending :
    (now : ℕ) (row : DeploymentSchedule)
    → is_pending row.status ≡ false
    → is_pending (release_claim now row).1.status ≡ false
unfolding release_claim
release_claim-not_pending now row e = ground arith

cancel_next-Under :
    (launch : Launch) (claimed : ℕ) (launched : List Launch) (now n : ℕ) (p : Pool)
    → Under launch claimed launched p
    → Under launch claimed launched (cancel_next now n p)
unfolding write_cancellation
cancel_next-Under launch claimed launched now zero p h = h
cancel_next-Under launch claimed launched now (suc n) p h = record {
  not_pending = refl;
  same_launch = write_cancellation-launch_of now p.row ∙ h.same_launch;
  same_claimed = h.same_claimed;
  same_launched = h.same_launched;
}

apply-Under :
    (launch : Launch) (claimed : ℕ) (launched : List Launch) (m : Move) (p : Pool)
    → is_interruption m ≡ true
    → Under launch claimed launched p
    → Under launch claimed launched (apply m p)
unfolding apply claim
apply-Under launch claimed launched (claiming now) p e h = rw h.not_pending h
apply-Under launch claimed launched launching p e h = absurd (cc)
apply-Under launch claimed launched (ending now answer) p e h = absurd (cc)
apply-Under launch claimed launched checking p e h = rw h.not_pending h
apply-Under launch claimed launched (cancelling now) p e h =
    cancel_next-Under launch claimed launched now p.cancelling p h
apply-Under launch claimed launched (sweeping now) p e h = record {
  not_pending = release_claim-not_pending now p.row h.not_pending;
  same_launch = release_claim-launch_of now p.row ∙ h.same_launch;
  same_claimed = h.same_claimed;
  same_launched = h.same_launched;
}

run-Under :
    (launch : Launch) (claimed : ℕ) (launched : List Launch) (ms : List Move) (p : Pool)
    → All (λ m. is_interruption m ≡ true) ms
    → Under launch claimed launched p
    → Under launch claimed launched (run ms p) × ((run ms p).at_work ≡ p.at_work)
unfolding run
run-Under launch claimed launched [] p i h = (h, refl)
run-Under launch claimed launched (m ∷ ms) p i h =
    let rest =
      run-Under launch claimed launched ms (apply m p) i.1
        (apply-Under launch claimed launched m p i.0 h) in
    (rest.0, rest.1 ∙ apply-at_work m p i.0)

run-append : (ms ms' : List Move) (p : Pool) → run (ms ++ ms') p ≡ run ms' (run ms p)
unfolding run
run-append [] ms' p = refl
run-append (m ∷ ms) ms' p = run-append ms ms' (apply m p)

-- The pool of a pending row that so many cancellations have found pending.
abbrev found : DeploymentSchedule → ℕ → Pool
found row k = record (untouched row) { cancelling = k }

checking-found :
    (row : DeploymentSchedule) (k : ℕ)
    → is_pending row.status ≡ true
    → apply checking (found row k) ≡ found row (suc k)
unfolding apply
checking-found row k e = rw e refl

run-checks :
    (row : DeploymentSchedule) (n k : ℕ)
    → is_pending row.status ≡ true
    → (j : ℕ) × (run (checks n) (found row k) ≡ found row j)
unfolding run
run-checks row zero k e = (k, refl)
run-checks row (suc n) k e =
    let rest = run-checks row n (suc k) e in
    (rest.0, ap (λ p. run (checks n) p) (checking-found row k e) ∙ rest.1)

claim-Under :
    (row : DeploymentSchedule) (launch : Launch) (t k : ℕ)
    → is_pending row.status ≡ true
    → launch_of row ≡ some launch
    → Under launch 1 [] (apply (claiming t) (found row k))
      × ((apply (claiming t) (found row k)).at_work ≡ [])
unfolding apply claim
claim-Under row launch t k e l = rw e (
  record {
    not_pending = refl;
    same_launch = write_start-launch_of t row ∙ l;
    same_claimed = refl;
    same_launched = refl;
  },
  refl,
)

launch-Under :
    (launch : Launch) (p : Pool)
    → Under launch 1 [] p
    → p.at_work ≡ []
    → Under launch 0 (launch ∷ []) (apply launching p) × ((apply launching p).at_work ≡ p.row ∷ [])
unfolding apply
launch-Under launch p h w = rw h.same_claimed (
  record {
    not_pending = h.not_pending;
    same_launch = h.same_launch;
    same_claimed = refl;
    same_launched = rw h.same_launch (ap (λ l. launch ∷ l) h.same_launched);
  },
  ap (λ l. l ++ p.row ∷ []) w,
)

-- The status that the answer of the orchestrator leads to; `none` is an exception.
abbrev pub ended_as : Option String → ScheduleStatus
ended_as (some id) = ScheduleStatus.succeeded
ended_as none = ScheduleStatus.failed

end-status :
    (now : ℕ) (answer : Option String) (launch : Launch) (loaded : DeploymentSchedule) (p : Pool)
    → p.at_work ≡ loaded ∷ []
    → launch_of loaded ≡ some launch
    → ((apply (ending now answer) p).row.status ≡ ended_as answer)
      × ((apply (ending now answer) p).launched ≡ p.launched)
unfolding apply finish
end-status now none launch loaded p w l = rw w (rw l (refl, refl))
end-status now (some id) launch loaded p w l = rw w (rw l (refl, refl))

-- The moves of a run: checks of cancellations, the claim, interruptions, the launch, more of them, and
-- the end.
abbrev pub run_of : ℕ → ℕ → List Move → List Move → Move → List Move
run_of n t ms ms' end = checks n ++ (claiming t ∷ (ms ++ (launching ∷ (ms' ++ (end ∷ [])))))

-- If a schedule is pending and has something to release, then once a runner has claimed it, neither
-- cancellations, those that had found it pending before included, nor sweeps nor claims of others,
-- before its load of the row and until its answer, stop it or show in the end: it is launched once,
-- and the row is SUCCEEDED if the orchestrator answers and FAILED if it raises.
pub cancel_overrun :
    (row : DeploymentSchedule) (launch : Launch) (answer : Option String) (n t t' : ℕ)
    (ms ms' : List Move)
    → is_pending row.status ≡ true
    → launch_of row ≡ some launch
    → All (λ m. is_interruption m ≡ true) ms
    → All (λ m. is_interruption m ≡ true) ms'
    → ((run (run_of n t ms ms' (ending t' answer)) (untouched row)).row.status ≡ ended_as answer)
      × ((run (run_of n t ms ms' (ending t' answer)) (untouched row)).launched ≡ launch ∷ [])
unfolding run
cancel_overrun row launch answer n t t' ms ms' e l i i' =
    let (k, checked) = run-checks row n 0 e in
    let p = apply (claiming t) (found row k) in
    let claimed = claim-Under row launch t k e l in
    let waited = run-Under launch 1 [] ms p i claimed.0 in
    let q = run ms p in
    let sent = launch-Under launch q waited.0 (waited.1 ∙ claimed.1) in
    let worked = run-Under launch 0 (launch ∷ []) ms' (apply launching q) i' sent.0 in
    let r = run ms' (apply launching q) in
    let done = end-status t' answer launch q.row r (worked.1 ∙ sent.1) waited.0.same_launch in
    let last : List Move = ending t' answer ∷ [] in
    let work : List Move = launching ∷ (ms' ++ last) in
    let all : List Move = claiming t ∷ (ms ++ work) in
    let whole : run (checks n ++ all) (untouched row) ≡ apply (ending t' answer) r =
      run-append (checks n) all (untouched row)
      ∙ ap (λ s. run all s) checked
      ∙ run-append ms work p
      ∙ run-append ms' last (apply launching q) in
    rw whole (done.0, done.1 ∙ worked.0.same_launched)
