-- ===== src/Release/Race.antt =====
-- Two requests for one release at once: the compare-and-swap lets one of them through.
use release_controller.Release.Store.{update_rows_fresh, update_rows-HasUniqueIds}
use release_controller.Release.Machine.{perform-⟶}
use release_controller.Prelude.{
  ◌≢◌, inl, inr, Outcome-cases, String, some, true, false, ok, err, ◌≡◌, arith,
}
use release_controller.Release.{ReleaseStatus, Release, invalid_transition, same_status}
use release_controller.Release.Store.{
  update_rows, Table, find_by_id, save_transition, HasUniqueIds, update_rows_stale, find_by_id-id,
}
use release_controller.Release.Transition.{Action, approving, perform, Workflows, World, execute}

-- The facts about one action that the table's laws need.
pub perform_facts :
    (a : Action) (r r' : Release) (expected : ReleaseStatus)
    → perform a r ≡ ok (r', expected)
    → (r'.id ≡ r.id)
      × (same_status r.status expected ≡ true)
      × (same_status r'.status expected ≡ false)
unfolding perform
perform_facts (approving by now) r r' expected h = ground arith
perform_facts _ r r' expected h = ground arith

-- What a request that was answered has done: its action applied to the release it had read, its
-- UPDATE wrote the one row of that release, and the answer is that row.
abbrev pub Applied : String → Action → Release → Table → Release → Table → Type 0
Applied key a r before out after =
    (r' : Release) × (expected : ReleaseStatus) × (perform a r ≡ ok (r', expected))
    × (after ≡ (update_rows r' expected before).0)
    × (find_by_id key after ≡ some out)
    × ((update_rows r' expected before).1 ≡ 1)

module _ (w : Workflows) where
  pub execute_answered :
      (others : Table → Table) (key : String) (a : Action) (s : World w) (r out : Release)
      → find_by_id key s.rows ≡ some r
      → (execute w others key a s).0 ≡ ok out
      → Applied key a r (others s.rows) out (execute w others key a s).1.rows
  unfolding execute save_transition
  execute_answered others key a s r out found answered = elim (Outcome-cases (perform a r)) [
    | inl ((r', expected), e) ↦ (r', expected, e, ground arith, ground arith, ground arith)
    | inr (x, e) ↦ ground arith
  ]

  -- If identifiers are unique in the table, the workflow admits the transition, and the release has left
  -- the expected status by the time of the UPDATE, then the request is answered with the status that is
  -- there, and the table stays as the other requests made it.
  pub lost_race :
      (others : Table → Table) (key : String) (a : Action) (s : World w) {flows : w.Flows}
      (r r' current : Release) (expected : ReleaseStatus)
      → find_by_id key s.rows ≡ some r
      → w.ensure_for_transition r s.flows ≡ ok flows
      → perform a r ≡ ok (r', expected)
      → HasUniqueIds (others s.rows)
      → find_by_id key (others s.rows) ≡ some current
      → same_status current.status expected ≡ false
      → execute w others key a s
        ≡ (err (invalid_transition current.status expected), record s { rows = others s.rows })
  unfolding execute save_transition
  lost_race others key a s r r' current expected found ready applied unique now changed = ground (
    arith,
    find_by_id-id key s.rows r,
    perform_facts a r r' expected applied,
    update_rows_stale r' expected (others s.rows) current unique,
  )

-- The row that an answered request left no longer has the status that it was read with.
answered_moved :
    (key : String) (a : Action) (r out : Release) (before after : Table)
    → HasUniqueIds before
    → find_by_id key before ≡ some r
    → Applied key a r before out after
    → HasUniqueIds after × (same_status out.status r.status ≡ false)
answered_moved key a r out before after unique found (r', expected, applied, written, now, one) =
    let facts = perform_facts a r r' expected applied in
    let from = perform-⟶ a r r' expected applied in
    let same = find_by_id-id key before r found in
    let fresh = update_rows_fresh r' expected before r unique in
    (rw written (update_rows-HasUniqueIds r' expected before unique), ground arith)

-- The second of two requests cannot be answered from a release that has moved on.
moved_refuses :
    (w : Workflows) (second : Action) (key : String) (s : World w) (r out : Release) (after : Table)
    → find_by_id key s.rows ≡ some r
    → HasUniqueIds after
    → find_by_id key after ≡ some out
    → same_status out.status r.status ≡ false
    → ((late : Release) → (execute w (λ _. after) key second s).0 ≢ ok late)
      × ((execute w (λ _. after) key second s).1.rows ≡ after)
unfolding execute save_transition
moved_refuses w second key s r out after found unique now moved =
    elim (Outcome-cases (perform second r)) [
      | inl ((r', expected), e) ↦
          let facts = perform_facts second r r' expected e in
          let from = perform-⟶ second r r' expected e in
          let same = find_by_id-id key s.rows r found in
          let stale = update_rows_stale r' expected after out unique in
          (λ late answered. ground arith, ground arith)
      | inr (x, e) ↦ (λ late answered. ground arith, ground arith)
    ]

-- If identifiers are unique in the table, then of two requests that read a release in one state, the
-- second is not answered and changes no row once the first has been answered.
pub one_winner :
    (w : Workflows) (first second : Action) (key : String) (s : World w) (r out : Release)
    → HasUniqueIds s.rows
    → find_by_id key s.rows ≡ some r
    → (execute w (λ t. t) key first s).0 ≡ ok out
    → let after = (execute w (λ t. t) key first s).1.rows in
      ((late : Release) → (execute w (λ _. after) key second s).0 ≢ ok late)
      × ((execute w (λ _. after) key second s).1.rows ≡ after)
one_winner w first second key s r out unique found answered =
    let applied = execute_answered w (λ t. t) key first s r out found answered in
    let after = (execute w (λ t. t) key first s).1.rows in
    let (still, moved) = answered_moved key first r out s.rows after unique found applied in
    moved_refuses w second key s r out after found still applied.4 moved
