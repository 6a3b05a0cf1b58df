-- ===== src/Schedule/Claims.antt =====
-- Any number of runners, cancellations and sweeps at one schedule (app/services/schedule_service.py,
-- app/services/recovery_service.py). A runner stands between its claim and the load of the row, and
-- between its launch and its last commit, while others go on; a cancellation stands between its
-- reading of the status and its UPDATE.
use release_controller.Prelude.{
  ℕ, zero, suc, ◌+◌, ◌≤◌, String, ◌≡◌, refl, Bool, true, false, Option, none, some, List, [], ◌∷◌,
  ◌++◌, arith, length, if◌then◌else◌,
}
use release_controller.Schedule.{is_pending, DeploymentSchedule, Launch}
use release_controller.Schedule.Runner.{claim, launch_of, finish}
use release_controller.Schedule.Upkeep.{write_cancellation, release_claim}

-- The row, how many runners have claimed it and not loaded it yet, what the runners at work have
-- loaded, how many cancellations have found it pending and not written yet, and what was launched.
pub record Pool : Type 0 where
  pub row : DeploymentSchedule
  pub claimed : ℕ
  pub at_work : List DeploymentSchedule
  pub cancelling : ℕ
  pub launched : List Launch

pub data Move : Type 0 where
  -- the claiming UPDATE of `_run_one`
  claiming : ℕ → Move
  -- the load of the row by a runner that has claimed it, and its call of the orchestrator
  launching : Move
  -- the answer to the runner that launched first, and its commit
  ending : ℕ → Option String → Move
  -- `cancel` up to its test of the status, and its commit
  checking : Move
  cancelling : ℕ → Move
  -- the UPDATE of the sweep
  sweeping : ℕ → Move

abbrev joined : Pool → Bool × DeploymentSchedule → Pool
joined p (true, row) = record p { row = row; claimed = suc p.claimed }
joined p (false, row) = p

abbrev with_launch : Option Launch → List Launch → List Launch
with_launch none launched = launched
with_launch (some launch) launched = launch ∷ launched

abbrev launch_next : ℕ → Pool → Pool
launch_next zero p = p
launch_next (suc n) p = record p {
  claimed = n;
  at_work = p.at_work ++ p.row ∷ [];
  launched = with_launch (launch_of p.row) p.launched;
}

abbrev end_first : ℕ → Option String → List DeploymentSchedule → Pool → Pool
end_first now answer [] p = p
end_first now answer (loaded ∷ rest) p = record p {
  row = finish now loaded (launch_of loaded) answer p.row;
  at_work = rest;
}

abbrev pub cancel_next : ℕ → ℕ → Pool → Pool
cancel_next now zero p = p
cancel_next now (suc n) p = record p { row = write_cancellation now p.row; cancelling = n }

unfoldable pub apply : Move → Pool → Pool
apply (claiming now) p = joined p (claim now p.row)
apply launching p = launch_next p.claimed p
apply (ending now answer) p = end_first now answer p.at_work p
apply checking p = if is_pending p.row.status then record p { cancelling = suc p.cancelling } else p
apply (cancelling now) p = cancel_next now p.cancelling p
apply (sweeping now) p = record p { row = (release_claim now p.row).1 }

unfoldable pub run : List Move → Pool → Pool
run [] p = p
run (m ∷ ms) p = run ms (apply m p)

abbrev pub untouched : DeploymentSchedule → Pool
untouched row = record { row = row; claimed = 0; at_work = []; cancelling = 0; launched = [] }

abbrev pub chances : Bool → ℕ
chances true = 1
chances false = 0

-- What was launched, and what still can be.
abbrev potential : Pool → ℕ
potential p = p.claimed + length p.launched + chances (is_pending p.row.status)

claim-potential : (now : ℕ) (p : Pool) → potential (joined p (claim now p.row)) ≤ potential p
unfolding claim
claim-potential now p = ground arith

with_launch-length :
    (l : Option Launch) (ls : List Launch) → length (with_launch l ls) ≤ suc (length ls)
with_launch-length none ls = omega arith
with_launch-length (some l) ls = omega arith

launch_next-potential :
    (n : ℕ) (p : Pool) → p.claimed ≡ n → potential (launch_next n p) ≤ potential p
launch_next-potential zero p e = omega arith
launch_next-potential (suc n) p e =
    omega (arith, e, with_launch-length (launch_of p.row) p.launched)

finish-pending :
    (now : ℕ) (loaded : DeploymentSchedule) (l : Option Launch) (answer : Option String)
    (row : DeploymentSchedule)
    → is_pending (finish now loaded l answer row).status ≡ false
unfolding finish
finish-pending now loaded none answer row = refl
finish-pending now loaded (some l) none row = refl
finish-pending now loaded (some l) (some id) row = refl

end_first-potential :
    (now : ℕ) (answer : Option String) (loaded : List DeploymentSchedule) (p : Pool)
    → potential (end_first now answer loaded p) ≤ potential p
end_first-potential now answer [] p = omega arith
end_first-potential now answer (loaded ∷ rest) p =
    rw (finish-pending now loaded (launch_of loaded) answer p.row) omega arith

cancel_next-potential : (now n : ℕ) (p : Pool) → potential (cancel_next now n p) ≤ potential p
unfolding write_cancellation
cancel_next-potential now zero p = omega arith
cancel_next-potential now (suc n) p = omega arith

apply-potential : (m : Move) (p : Pool) → potential (apply m p) ≤ potential p
unfolding apply release_claim
apply-potential (claiming now) p = claim-potential now p
apply-potential launching p = launch_next-potential p.claimed p refl
apply-potential (ending now answer) p = end_first-potential now answer p.at_work p
apply-potential checking p = ground arith
apply-potential (cancelling now) p = cancel_next-potential now p.cancelling p
apply-potential (sweeping now) p = ground arith

run-potential : (ms : List Move) (p : Pool) → potential (run ms p) ≤ potential p
unfolding run
run-potential [] p = omega arith
run-potential (m ∷ ms) p = omega (arith, apply-potential m p, run-potential ms (apply m p))

-- However many runners claim, load and end a schedule that nobody works on, and whatever
-- cancellations and sweeps come in between, its deployment is launched at most once, and never if
-- the schedule was not pending to begin with.
pub one_launch :
    (ms : List Move) (row : DeploymentSchedule)
    → length (run ms (untouched row)).launched ≤ chances (is_pending row.status)
one_launch ms row = omega (arith, run-potential ms (untouched row))
