-- ===== src/Deployment/Claims.antt =====
-- Any number of sessions at one deployment: the claim of `claim_for_promotion` decides who sends
-- (app/services/deployment_service.py). A session stands between its claim and its request while
-- others go on; what it held before the claim may be stale. A commit writes the whole object.
use mathlib.Core.Path.{subst}
use release_controller.Prelude.{
  ap, ◌<◌, Bool, true, false, ◌+◌, ◌≤◌, Option, List, [], ◌∷◌, ◌++◌, length, length-append, All,
  All-append, ◌≡◌, refl, arith, Bool-cases, inl, inr,
}
use release_controller.Workflow.{promote_stage}
use release_controller.Registry.{ProjectComponent}
use release_controller.Deployment.{Deployment, ReleaseBundle, Session, Sent, Upstream}
use release_controller.Deployment.Events.{commit}
use release_controller.Deployment.Promotion.{is_claimable, claim_for_promotion, dispatch}
use release_controller.Deployment.Refreshing.{refresh}
use release_controller.Deployment.Quiet.{refresh-Quiet}
use release_controller.Deployment.Sending.{dispatch-SendsOnce}

-- The row, the sessions that have claimed it and not sent yet, and all that was sent.
pub record Pool : Type 0 where
  pub row : Deployment
  pub claimed : List Session
  pub sent : List Sent

pub data Move : Type 0 where
  -- `promote` up to the commit of its claim, by a session that holds this object and this bundle
  claiming : Upstream → Deployment → Option ReleaseBundle → Move
  -- the rest of `promote`, by the session that claimed first
  dispatching : Upstream → ProjectComponent → Move
  -- a poll by a session that has loaded the row
  refreshing : Upstream → Option ReleaseBundle → Move

abbrev opened : Deployment → Pool → Option ReleaseBundle → Session
opened d p release = record {
  deployment = d;
  row = p.row;
  release = release;
  events = [];
  sent = p.sent;
  ticks = 0;
}

unfoldable pub join : Pool → Bool × Session → Pool
join p (true, s) = record p { row = s.row; claimed = p.claimed ++ s ∷ [] }
join p (false, s) = p

unfoldable pub send_first : Upstream → ProjectComponent → List Session → Pool → Pool
send_first u c [] p = p
send_first u c (s ∷ rest) p =
    let mine = record s { row = p.row; sent = p.sent } in
    let done = (dispatch u c (promote_stage s.deployment.component) mine).1 in
    record { row = done.row; claimed = rest; sent = done.sent }

unfoldable pub apply : Move → Pool → Pool
apply (claiming u d release) p = join p (claim_for_promotion u (opened d p release))
apply (dispatching u c) p = send_first u c p.claimed p
apply (refreshing u release) p =
    let done = commit (refresh u (opened p.row p release)) in
    record p { row = done.row; sent = done.sent }

pub run : List Move → Pool → Pool
run [] p = p
run (m ∷ ms) p = run ms (apply m p)

abbrev Taken : Session → Type 0
Taken s = is_claimable s.deployment ≡ false

-- One session has claimed the row or has sent its promotion, and only a row that none has claimed
-- can be claimed.
pub record IsSafe (p : Pool) : Type 0 where
  pub at_most_one : length p.claimed + length p.sent ≤ 1
  pub free : is_claimable p.row ≡ true → length p.claimed + length p.sent ≡ 0
  pub taken : All Taken p.claimed

claim-Taken :
    (u : Upstream) (s : Session)
    → (claim_for_promotion u s).0 ≡ true
    → (is_claimable s.row ≡ true)
      × (is_claimable (claim_for_promotion u s).1.row ≡ false)
      × Taken (claim_for_promotion u s).1
unfolding claim_for_promotion
claim-Taken u s h = ground arith

join-IsSafe :
    (p : Pool) (won : Bool) (s : Session)
    → (won ≡ true → (is_claimable p.row ≡ true) × (is_claimable s.row ≡ false) × Taken s)
    → IsSafe p
    → IsSafe (join p (won, s))
unfolding join
join-IsSafe p false s claim safe = safe
join-IsSafe p true s claim safe =
    let (was_free, now_taken, held) = claim refl in
    record {
      at_most_one = omega (arith, safe.free was_free, length-append p.claimed (s ∷ []));
      free = λ e. ground arith;
      taken = All-append Taken p.claimed (s ∷ []) safe.taken (held, tt);
    }

true≢false : {b : Bool} → b ≡ true → b ≡ false → ⊥
true≢false p q = cc

-- While a session holds the claim the row cannot be claimed again.
taken_of_claimed : (p : Pool) → IsSafe p → 0 < length p.claimed → is_claimable p.row ≡ false
taken_of_claimed p safe h = elim (Bool-cases (is_claimable p.row)) [
  | inl f ↦ absurd (omega (arith, safe.free f))
  | inr t ↦ t
]

send_first-IsSafe :
    (u : Upstream) (c : ProjectComponent) (waiting : List Session) (p : Pool)
    → p.claimed ≡ waiting
    → IsSafe p
    → IsSafe (send_first u c waiting p)
unfolding send_first
send_first-IsSafe u c [] p e safe = safe
send_first-IsSafe u c (s ∷ rest) p e safe =
    let mine : Session = record s { row = p.row; sent = p.sent } in
    let once = dispatch-SendsOnce u c (promote_stage s.deployment.component) mine in
    let size : length p.claimed ≡ length (s ∷ rest) = ap (λ (l : List Session). length l) e in
    let held = subst (All Taken) e safe.taken in
    let locked = taken_of_claimed p safe (omega (arith, size)) in
    let done = once.row_taken held.0 locked in
    record {
      at_most_one = omega (arith, once.at_most_one, size, safe.at_most_one);
      free = λ open_row. elim (true≢false open_row done) [ ];
      taken = held.1;
    }

apply-IsSafe : (m : Move) (p : Pool) → IsSafe p → IsSafe (apply m p)
unfolding apply
apply-IsSafe (claiming u d release) p safe =
    join-IsSafe p _ _ (claim-Taken u (opened d p release)) safe
apply-IsSafe (dispatching u c) p safe = send_first-IsSafe u c p.claimed p refl safe
apply-IsSafe (refreshing u release) p safe =
    let q = refresh-Quiet u (opened p.row p release) in
    let size = ap (λ (l : List Sent). length l) q.same_sent in
    record {
      at_most_one = omega (arith, size, safe.at_most_one);
      free = λ open_row. elim (Bool-cases (is_claimable p.row)) [
        | inl f ↦ omega (arith, safe.free f, size)
        | inr t ↦ elim (true≢false open_row (q.kept t)) [ ]
      ];
      taken = safe.taken;
    }

run-IsSafe : (ms : List Move) (p : Pool) → IsSafe p → IsSafe (run ms p)
unfolding run
run-IsSafe [] p safe = safe
run-IsSafe (m ∷ ms) p safe = run-IsSafe ms (apply m p) (apply-IsSafe m p safe)

-- However many sessions try to promote a deployment that nobody has claimed, however stale the
-- objects that they hold, whatever Drone answers or fails to answer, and whatever polls run in
-- between: one promotion at most goes out.
pub one_promotion :
    (ms : List Move) (row : Deployment)
    → length (run ms (record { row = row; claimed = []; sent = [] })).sent ≤ 1
one_promotion ms row =
    let start : Pool = record { row = row; claimed = []; sent = [] } in
    let safe =
      run-IsSafe ms start (record { at_most_one = omega arith; free = λ _. refl; taken = tt }) in
    omega (arith, safe.at_most_one)
