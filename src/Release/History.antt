-- ===== src/Release/History.antt =====
-- What one release goes through under any sequence of requests
-- (app/usecase/release/*.py over app/domain/release/entities/release.py).
use release_controller.Release.Store.{Table, find_by_id, update_rows, apply_values, matches}
use release_controller.Release.Machine.{
  ◌⟶*◌, here, further, approval, rejection, start, succeed, fail, perform-⟶, ◌⟶◌,
}
use release_controller.Release.Transition.{Action, Workflows, World, create_release}
use release_controller.Release.{Release, ReleaseStatus, create, rejected, is_finished, same_status}
use mathlib.Core.Path.{subst}
use release_controller.Prelude.{
  if◌then◌else◌, String, true, ◌||◌, some, List, [], ◌∷◌, ◌++◌, ◌≡◌, ◌⊎◌, inl, inr, refl, arith,
  Bool-cases, str_eq,
}
use release_controller.Release.Requests.{
  Request, creating, acting, handle, serve, Leaves, execute-Leaves, add-cases,
}

-- Where a release stands after something happened: as it was, or one edge further.
abbrev Follows : Release → Release → Type 0
Follows r later = (later ≡ r) ⊎ (r.status ⟶ later.status)

-- The first row of a release after an UPDATE.
update_rows-find :
    (key : String) (entity : Release) (expected : ReleaseStatus) (rows : Table) (r : Release)
    → find_by_id key rows ≡ some r
    → find_by_id key (update_rows entity expected rows).0
      ≡ some (if matches entity expected r then apply_values entity r else r)
unfolding find_by_id update_rows
update_rows-find key entity expected [] r h = cc
update_rows-find key entity expected (row ∷ rows) r h =
    let rest = update_rows-find key entity expected rows r in
    elim (Bool-cases (str_eq row.id key)) [
      | inl hit ↦
          let e : row ≡ r = ground arith in
          rw (← e) (elim (Bool-cases (matches entity expected row)) [
            | inl m ↦ rw m (rw hit)
            | inr m ↦ rw m (rw hit)
          ])
      | inr miss ↦ elim (Bool-cases (matches entity expected row)) [
        | inl m ↦ rw m (rw miss (rest (ground arith)))
        | inr m ↦ rw m (rw miss (rest (ground arith)))
      ]
    ]

find_by_id-append :
    (key : String) (rows more : Table) (r : Release)
    → find_by_id key rows ≡ some r
    → find_by_id key (rows ++ more) ≡ some r
unfolding find_by_id
find_by_id-append key [] more r h = cc
find_by_id-append key (row ∷ rows) more r h = ground (arith, find_by_id-append key rows more r)

-- An action moves the release that it is for along an edge, and no other.
Leaves-Follows :
    (key : String) (a : Action) (before after : Table) (other : String) (r : Release)
    → Leaves key a before after
    → find_by_id other before ≡ some r
    → (later : Release) × (find_by_id other after ≡ some later) × Follows r later
Leaves-Follows key a before after other r (inl e) h = (r, rw e h, inl refl)
Leaves-Follows key a before after other r (inr (read, r', expected, found, applied, e)) h =
    let now = update_rows-find other r' expected before r h in
    let (from, edge) = perform-⟶ a read r' expected applied in
    elim (Bool-cases (matches r' expected r)) [
      | inr m ↦ (r, rw e (rw m at now), inl refl)
      | inl m ↦
          let same : read.status ≡ r.status = ground arith in
          (apply_values r' r, rw e (rw m at now), inr (subst (λ s. s ⟶ r'.status) same edge))
    ]

no_edge : {s t : ReleaseStatus} → (same_status s rejected || is_finished s) ≡ true → ¬ (s ⟶ t)
no_edge h approval = cc
no_edge h rejection = cc
no_edge h start = cc
no_edge h succeed = cc
no_edge h fail = cc

module _ (w : Workflows) where
  handle-Follows :
      (q : Request) (s : World w) (key : String) (r : Release)
      → find_by_id key s.rows ≡ some r
      → (later : Release) × (find_by_id key (handle w q s).rows ≡ some later) × Follows r later
  unfolding handle create_release
  handle-Follows (creating id repository branch commit environment message now) s key r h =
      let release = create id repository branch commit environment message now in
      elim (add-cases release s.rows) [
        | inl known ↦ (r, rw (known, create_release, handle) h, inl refl)
        | inr new ↦ (
          r,
          rw (new, create_release, handle) (find_by_id-append key s.rows (release ∷ []) r h),
          inl refl,
        )
      ]
  handle-Follows (acting for a) s key r h =
      Leaves-Follows for a s.rows _ key r (execute-Leaves w for a s) h

  -- Whatever requests come, a release that is in the table stays there, and the status that it ends
  -- in is reached from its status by the edges of the diagram.
  pub serve-⟶* :
      (qs : List Request) (s : World w) (key : String) (r : Release)
      → find_by_id key s.rows ≡ some r
      → (later : Release) × (find_by_id key (serve w qs s).rows ≡ some later)
        × (r.status ⟶* later.status)
  unfolding serve
  serve-⟶* [] s key r h = (r, h, here)
  serve-⟶* (q ∷ qs) s key r h =
      let (next, found, follows) = handle-Follows q s key r h in
      let (later, kept, path) = serve-⟶* qs (handle w q s) key next found in
      elim follows [
        | inl e ↦ (later, kept, subst (λ (x : Release). x.status ⟶* later.status) e path)
        | inr edge ↦ (later, kept, further edge path)
      ]

  -- A release in the table that was rejected, has succeeded or has failed is the same after any
  -- requests.
  pub finished_is_final :
      (qs : List Request) (s : World w) (key : String) (r : Release)
      → (same_status r.status rejected || is_finished r.status) ≡ true
      → find_by_id key s.rows ≡ some r
      → find_by_id key (serve w qs s).rows ≡ some r
  unfolding serve
  finished_is_final [] s key r final h = h
  finished_is_final (q ∷ qs) s key r final h =
      let (next, found, follows) = handle-Follows q s key r h in
      elim follows [
        | inl e ↦
            finished_is_final qs (handle w q s) key r final
              (subst (λ x. find_by_id key (handle w q s).rows ≡ some x) e found)
        | inr edge ↦ absurd (no_edge final edge)
      ]
