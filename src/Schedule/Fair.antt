-- ===== src/Schedule/Fair.antt =====
-- The passes of the runner (app/services/schedule_service.py: `run_due`, `_run_one`): they run what is
-- due, the earliest first, until nothing is left.
use release_controller.Prelude.{
  ℕ, zero, suc, ◌+◌, ◌≤◌, ◌<◌, min, String, ◌≡◌, refl, sym, ◌∙◌, ◌≢◌, ◌⊎◌, inl, inr, true, false,
  Option, none, some, List, [], ◌∷◌, arith, All, if-both,
}
use mathlib.Core.Path.{subst}
use release_controller.Schedule.{
  running, bundle_launch, standalone_launch, is_pending, DeploymentSchedule, Launch, Launcher,
}
use release_controller.Schedule.Runner.{
  first_rows, due_rows, ids_of, run_due, run_all, Desk, due_before, put_row, claim, finish,
  launch_of, run_claimed, on_claim, on_row, run_one,
}
use release_controller.Schedule.Order.{
  due_first-count, due_rows-All, first_rows-All, one_due, count_due,
}
use release_controller.Schedule.Table.{
  IsIn-own, due_rows-HasDistinctIds, first_rows-HasDistinctIds, Others, HasDistinctIds, IsIn,
  put_row-count, put_row-find, put_row-HasDistinctIds,
}

finish-kept :
    (now : ℕ) (loaded : DeploymentSchedule) (l : Option Launch) (answer : Option String)
    (row : DeploymentSchedule)
    → (is_pending (finish now loaded l answer row).status ≡ false)
      × ((finish now loaded l answer row).id ≡ row.id)
unfolding finish
finish-kept now loaded none answer row = (refl, refl)
finish-kept now loaded (some l) none row = (refl, refl)
finish-kept now loaded (some (bundle_launch p cs t r)) (some id) row = (refl, refl)
finish-kept now loaded (some (standalone_launch p k n t r)) (some id) row = (refl, refl)

module _ (u : Launcher) where
  -- What `_run_one` does to the table, for a row that stands in it.
  record Written (r : DeploymentSchedule) (before after : List DeploymentSchedule) : Type 0 where
    row : DeploymentSchedule
    replaced : after ≡ put_row r.id row before
    over : is_pending row.status ≡ false
    same_id : row.id ≡ r.id

  abbrev Done : DeploymentSchedule → Desk → Desk → Type 0
  Done r d d' = ((d'.rows ≡ d.rows) × (is_pending r.status ≡ false)) ⊎ Written r d.rows d'.rows

  on_row-Written : (r : DeploymentSchedule) (d : Desk) → Done r d (on_row u r.id (some r) d)
  unfolding on_row on_claim claim run_claimed
  on_row-Written r d =
      let now = u.clock d.ticks in
      let taken : DeploymentSchedule = record r {
        status = running;
        started_at = some now;
        updated_at = now;
      } in
      let kept = finish-kept _ taken (launch_of taken) _ taken in
      if-both (λ c. Done r d (on_claim u r.id c (record d { ticks = suc d.ticks })))
        (is_pending r.status) (true, taken) (false, r)
        (λ _. inr (record { row = _; replaced = refl; over = kept.0; same_id = kept.1 }))
        (λ over. inl (refl, over))

  run_one-Written :
      (r : DeploymentSchedule) (d : Desk) → IsIn d.rows r → Done r d (run_one u r.id d)
  unfolding run_one
  run_one-Written r d e = subst (λ f. Done r d (on_row u r.id f d)) (sym e) (on_row-Written r d)

  -- One run takes its schedule out of what is due, and no other one.
  record Runs (t : ℕ) (r : DeploymentSchedule) (d d' : Desk) : Type 0 where
    fewer : count_due t d'.rows + one_due (due_before t r) ≤ count_due t d.rows
    others : (x : DeploymentSchedule) → x.id ≢ r.id → IsIn d.rows x → IsIn d'.rows x
    still_distinct : HasDistinctIds d.rows → HasDistinctIds d'.rows

  run_one-Runs :
      (t : ℕ) (r : DeploymentSchedule) (d : Desk) → IsIn d.rows r → Runs t r d (run_one u r.id d)
  run_one-Runs t r d e = elim (run_one-Written r d e) [
    | inl (same, over) ↦ record {
      fewer = rw same ground arith;
      others = λ x o h. rw same h;
      still_distinct = λ h. rw same h;
    }
    | inr w ↦
        let over : due_before t w.row ≡ false = ground (arith, w.over) in
        record {
          fewer = rw w.replaced (put_row-count t r.id r w.row d.rows over e);
          others = λ x o h. rw w.replaced (put_row-find r.id x.id w.row d.rows w.same_id o ∙ h);
          still_distinct =
              λ h. rw w.replaced (put_row-HasDistinctIds r.id w.row d.rows w.same_id h);
        }
  ]

  -- The rows that a pass is to run all stand in the table.
  Ready-next :
      (t : ℕ) (r : DeploymentSchedule) (rs : List DeploymentSchedule) (d d' : Desk)
      → Runs t r d d'
      → All (Others r.id) rs
      → All (IsIn d.rows) rs
      → All (IsIn d'.rows) rs
  Ready-next t r [] d d' runs o h = tt
  Ready-next t r (x ∷ xs) d d' runs o h =
      (runs.others x o.0 h.0, Ready-next t r xs d d' runs o.1 h.1)

  record Drains (t n : ℕ) (d d' : Desk) : Type 0 where
    fewer : count_due t d'.rows + n ≤ count_due t d.rows
    still_distinct : HasDistinctIds d.rows → HasDistinctIds d'.rows

  run_all-Drains :
      (t : ℕ) (rs : List DeploymentSchedule) (d : Desk)
      → HasDistinctIds rs
      → All (IsIn d.rows) rs
      → Drains t (count_due t rs) d (run_all u (ids_of rs) d)
  unfolding run_all
  run_all-Drains t [] d o h = record { fewer = omega arith; still_distinct = λ k. k }
  run_all-Drains t (r ∷ rs) d o h =
      let d' = run_one u r.id d in
      let runs = run_one-Runs t r d h.0 in
      let rest = run_all-Drains t rs d' o.1 (Ready-next t r rs d d' runs o.0 h.1) in
      record {
        fewer = omega (arith, runs.fewer, rest.fewer);
        still_distinct = λ k. rest.still_distinct (runs.still_distinct k);
      }

  -- A pass runs as many of the schedules due at a time as its batch has room for.
  run_due-fewer :
      (t : ℕ) (d : Desk)
      → HasDistinctIds d.rows
      → t ≤ u.clock d.ticks
      → (count_due t (run_due u d).1.rows + min u.batch_size (count_due t d.rows)
          ≤ count_due t d.rows)
        × HasDistinctIds (run_due u d).1.rows
  unfolding run_due
  run_due-fewer t d o h =
      let now = u.clock d.ticks in
      let found = due_rows now d.rows in
      let batch = first_rows u.batch_size found in
      let done =
        run_all-Drains t batch (record d { ticks = suc d.ticks })
          (first_rows-HasDistinctIds u.batch_size found (due_rows-HasDistinctIds now d.rows o))
          (first_rows-All (IsIn d.rows) u.batch_size found
            (due_rows-All (IsIn d.rows) now d.rows (IsIn-own d.rows o))) in
      (
        omega (arith, done.fewer, due_first-count u.batch_size t now d.rows h),
        done.still_distinct o,
      )

  unfoldable pub passes : ℕ → Desk → Desk
  passes zero d = d
  passes (suc n) d = passes n (run_due u d).1

  -- If the identifiers of the schedules are distinct, a batch has room for one at least, and a time
  -- has passed for good, then no schedule that was due at that time still waits after as many passes
  -- as there were.
  pub passes-drain :
      (t n : ℕ) (d : Desk)
      → HasDistinctIds d.rows
      → 0 < u.batch_size
      → ((k : ℕ) → t ≤ u.clock k)
      → count_due t d.rows ≤ n
      → count_due t (passes n d).rows ≡ 0
  unfolding passes
  passes-drain t zero d o b c h = omega arith
  passes-drain t (suc n) d o b c h =
      let step = run_due-fewer t d o (c d.ticks) in
      passes-drain t n (run_due u d).1 step.1 b c (omega (arith, step.0))
