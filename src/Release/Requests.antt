-- ===== src/Release/Requests.antt =====
-- What holds of every release after any sequence of requests
-- (app/usecase/release/*.py over app/domain/release/entities/release.py).
use release_controller.Release.Store.{
  same_release, save_transition, Table, find_by_id, update_rows, apply_values, add, matches,
}
use release_controller.Release.Machine.{IsConsistent, create-IsConsistent, perform-IsConsistent}
use release_controller.Release.Transition.{
  element_of, step_data_of, Action, perform, Workflows, World, execute, create_release,
}
use release_controller.Release.{duplicate_release, Release, ReleaseStatus, create}
use mathlib.Core.Path.{sym, subst}
use release_controller.Prelude.{
  ◌==◌, ℕ, String, Option, some, List, [], ◌∷◌, ◌++◌, All, All-append, any, ok, err, ◌≡◌, ◌⊎◌, inl,
  inr, arith, Bool-cases, Option-cases, Outcome-cases, str_eq,
}

pub data Request : Type 0 where
  creating : String → String → String → String → String → Option String → ℕ → Request
  acting : String → Action → Request

find_by_id-All {ℓ} :
    (P : Release → Type ℓ) (key : String) (rows : Table) (r : Release)
    → All P rows
    → find_by_id key rows ≡ some r
    → P r
unfolding find_by_id
find_by_id-All P key [] r h e = cc
find_by_id-All P key (row ∷ rows) r h e = elim (Bool-cases (str_eq row.id key)) [
  | inl m ↦ subst P (ground arith) h.0
  | inr m ↦ find_by_id-All P key rows r h.1 (ground arith)
]

update_rows-All {ℓ} :
    (P : Release → Type ℓ) (entity : Release) (expected : ReleaseStatus) (rows : Table)
    → ((row : Release) → P row → P (apply_values entity row))
    → All P rows
    → All P (update_rows entity expected rows).0
unfolding update_rows
update_rows-All P entity expected [] keep h = tt
update_rows-All P entity expected (row ∷ rows) keep h =
    let rest = update_rows-All P entity expected rows keep h.1 in
    elim (Bool-cases (matches entity expected row)) [
      | inl m ↦ rw m (keep row h.0, rest)
      | inr m ↦ rw m (h.0, rest)
    ]

-- The table that one transition request leaves, when no other runs beside it.
abbrev pub Leaves : String → Action → Table → Table → Type 0
Leaves key a before after =
    (after ≡ before)
    ⊎ ((r : Release) × (r' : Release) × (expected : ReleaseStatus) × (find_by_id key before
          ≡ some r)
        × (perform a r ≡ ok (r', expected))
        × (after ≡ (update_rows r' expected before).0))

module _ (w : Workflows) where
  pub execute-Leaves :
      (key : String) (a : Action) (s : World w)
      → Leaves key a s.rows (execute w (λ t. t) key a s).1.rows
  unfolding execute save_transition
  execute-Leaves key a s = elim (Option-cases (find_by_id key s.rows)) [
    | inl missing ↦ inl (ground arith)
    | inr (r, found) ↦ elim (Outcome-cases (w.ensure_for_transition r s.flows)) [
      | inr (x, e) ↦ inl (ground arith)
      | inl (flows, ready) ↦ elim (Outcome-cases (perform a r)) [
        | inr (x, e) ↦ inl (ground arith)
        | inl ((r', expected), e) ↦ elim (Bool-cases ((update_rows r' expected s.rows).1 == 1)) [
          | inr lost ↦ inl (ground arith)
          | inl won ↦
              elim (Outcome-cases (w.complete_step key (element_of a) (step_data_of a) flows)) [
                | inr (x, stuck) ↦ inl (ground arith)
                | inl (flows', done) ↦ inr (r, r', expected, found, e, ground arith)
              ]
        ]
      ]
    ]
  ]

  -- The state after one request; the answer goes to the client.
  unfoldable pub handle : Request → World w → World w
  handle (creating id repository branch commit environment message now) s =
      (create_release w id repository branch commit environment message now s).1
  handle (acting key a) s = (execute w (λ t. t) key a s).1

  unfoldable pub serve : List Request → World w → World w
  serve [] s = s
  serve (q ∷ qs) s = serve qs (handle q s)

-- Every row that one request leaves is consistent.
Leaves-IsConsistent :
    (key : String) (a : Action) (before after : Table)
    → Leaves key a before after
    → All IsConsistent before
    → All IsConsistent after
Leaves-IsConsistent key a before after (inl e) h = subst (All IsConsistent) (sym e) h
Leaves-IsConsistent key a before after (inr (r, r', expected, found, applied, e)) h =
    let c =
      perform-IsConsistent a r r' expected applied
        (find_by_id-All IsConsistent key before r h found) in
    subst (All IsConsistent) (sym e) (
      update_rows-All IsConsistent r' expected before
        (λ row k. record {
          approval_stamp = c.approval_stamp;
          rejection_stamp = c.rejection_stamp;
          start_stamp = c.start_stamp;
          finish_stamp = c.finish_stamp;
        })
        h)

pub add-cases :
    (release : Release) (rows : Table)
    → (add release rows ≡ err duplicate_release) ⊎ (add release rows ≡ ok (rows ++ release ∷ []))
unfolding add
add-cases release rows = elim (Bool-cases (any (same_release release) rows)) [
  | inl known ↦ inl (rw known)
  | inr new ↦ inr (rw new)
]

module _ (w : Workflows) where
  handle-IsConsistent :
      (q : Request) (s : World w) → All IsConsistent s.rows → All IsConsistent (handle w q s).rows
  unfolding handle create_release
  handle-IsConsistent (creating id repository branch commit environment message now) s h =
      let release = create id repository branch commit environment message now in
      let c = create-IsConsistent id repository branch commit environment message now in
      elim (add-cases release s.rows) [
        | inl known ↦ rw (known, create_release, handle) h
        | inr new ↦
            rw (new, create_release, handle)
              (All-append IsConsistent s.rows (release ∷ []) h (c, tt))
      ]
  handle-IsConsistent (acting key a) s h =
      Leaves-IsConsistent key a s.rows _ (execute-Leaves w key a s) h

  -- If every release of the table has exactly the time stamps that belong to its status, this is so
  -- after any requests.
  pub serve-IsConsistent :
      (qs : List Request) (s : World w)
      → All IsConsistent s.rows
      → All IsConsistent (serve w qs s).rows
  unfolding serve
  serve-IsConsistent [] s h = h
  serve-IsConsistent (q ∷ qs) s h = serve-IsConsistent qs (handle w q s) (handle-IsConsistent q s h)
