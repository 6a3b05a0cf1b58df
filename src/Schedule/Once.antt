-- ===== src/Schedule/Once.antt =====
-- How often a pass over quiet deployments asks for each refresh (app/services/recovery_service.py:
-- `resume_deployments`).
use release_controller.Prelude.{
  ℕ, ◌+◌, ◌≤◌, String, ◌≡◌, refl, Bool, true, false, not, ◌&&◌, Option, none, some, List, [], ◌∷◌,
  ◌++◌, arith, str_eq, eq_iff, length, length-append, any, if◌then◌else◌,
}
use release_controller.Schedule.Resumption.{
  Resumed, resume_deployments, resume, resume_all, Refresh, bundle_refresh, standalone_refresh,
  member, Targets, add_bundle, add_pair, split_pairs,
}

abbrev pub one_of : Bool → ℕ
one_of true = 1
one_of false = 0

abbrev pub is_same : Refresh → Refresh → Bool
is_same (bundle_refresh a) (bundle_refresh b) = str_eq a b
is_same (standalone_refresh a) (standalone_refresh b) = str_eq a b
is_same _ _ = false

-- How often a refresh was asked for.
abbrev pub asked_for : Refresh → List Refresh → ℕ
asked_for x [] = 0
asked_for x (y ∷ ys) = one_of (is_same y x) + asked_for x ys

abbrev occurrences : String → List String → ℕ
occurrences id [] = 0
occurrences id (x ∷ xs) = one_of (str_eq x id) + occurrences id xs

-- Whether a row is of a bundle, and whether it is a deployment on its own.
abbrev pub is_of_bundle : String → String × Option String → Bool
is_of_bundle id (deployment_id, none) = false
is_of_bundle id (deployment_id, some bundle_id) = not (str_eq bundle_id "") && str_eq bundle_id id

abbrev pub is_alone : String → String × Option String → Bool
is_alone id (deployment_id, none) = str_eq deployment_id id
is_alone id (deployment_id, some bundle_id) = str_eq bundle_id "" && str_eq deployment_id id

abbrev pub rows_alone : String → List (String × Option String) → ℕ
rows_alone id [] = 0
rows_alone id (p ∷ ps) = one_of (is_alone id p) + rows_alone id ps

asked_for-append :
    (x : Refresh) (ys : List Refresh) (z : Refresh)
    → asked_for x (ys ++ z ∷ []) ≡ asked_for x ys + one_of (is_same z x)
asked_for-append x [] z = omega arith
asked_for-append x (y ∷ ys) z = omega (arith, asked_for-append x ys z)

occurrences-append :
    (id : String) (xs : List String) (z : String)
    → occurrences id (xs ++ z ∷ []) ≡ occurrences id xs + one_of (str_eq z id)
occurrences-append id [] z = omega arith
occurrences-append id (x ∷ xs) z = omega (arith, occurrences-append id xs z)

member-occurrences : (id : String) (xs : List String) → member id xs ≡ false → occurrences id xs ≡ 0
member-occurrences id [] h = refl
member-occurrences id (x ∷ xs) h = ground (arith, member-occurrences id xs)

occurrences-member : (id : String) (xs : List String) → occurrences id xs ≡ 0 → member id xs ≡ false
occurrences-member id [] h = refl
occurrences-member id (x ∷ xs) h = ground (arith, occurrences-member id xs)

-- A bundle is a target once if a row is of it or it was one before.
abbrev present : ℕ → Bool → ℕ
present n b = if b then 1 else n

add_pair-bundle :
    (id : String) (p : String × Option String) (t : Targets)
    → occurrences id t.bundle_ids ≤ 1
    → occurrences id (add_pair p t).bundle_ids
      ≡ present (occurrences id t.bundle_ids) (is_of_bundle id p)
unfolding add_pair add_bundle
add_pair-bundle id (d, none) t h = refl
add_pair-bundle id (d, some b) t h = ground (
  arith,
  eq_iff b id,
  occurrences-append id t.bundle_ids b,
  member-occurrences b t.bundle_ids,
  occurrences-member b t.bundle_ids,
)

split_pairs-bundle :
    (id : String) (ps : List (String × Option String)) (t : Targets)
    → occurrences id t.bundle_ids ≤ 1
    → occurrences id (split_pairs ps t).bundle_ids
      ≡ present (occurrences id t.bundle_ids) (any (is_of_bundle id) ps)
unfolding split_pairs
split_pairs-bundle id [] t h = refl
split_pairs-bundle id (p ∷ ps) t h =
    let now = add_pair-bundle id p t h in
    let rest = split_pairs-bundle id ps (add_pair p t) (ground arith) in ground arith

add_pair-alone :
    (id : String) (p : String × Option String) (t : Targets)
    → occurrences id (add_pair p t).standalone_ids
      ≡ occurrences id t.standalone_ids + one_of (is_alone id p)
unfolding add_pair add_bundle
add_pair-alone id (d, none) t = occurrences-append id t.standalone_ids d
add_pair-alone id (d, some b) t = ground (arith, occurrences-append id t.standalone_ids d)

split_pairs-alone :
    (id : String) (ps : List (String × Option String)) (t : Targets)
    → occurrences id (split_pairs ps t).standalone_ids
      ≡ occurrences id t.standalone_ids + rows_alone id ps
unfolding split_pairs
split_pairs-alone id [] t = omega arith
split_pairs-alone id (p ∷ ps) t =
    omega (arith, add_pair-alone id p t, split_pairs-alone id ps (add_pair p t))

abbrev all_of : (String → Refresh) → List String → List Refresh
all_of kind [] = []
all_of kind (id ∷ ids) = kind id ∷ all_of kind ids

bundles-asked :
    (id : String) (ids : List String)
    → asked_for (bundle_refresh id) (all_of bundle_refresh ids) ≡ occurrences id ids
bundles-asked id [] = refl
bundles-asked id (x ∷ xs) = omega (arith, bundles-asked id xs)

standalones-asked :
    (id : String) (ids : List String)
    → asked_for (standalone_refresh id) (all_of standalone_refresh ids) ≡ occurrences id ids
standalones-asked id [] = refl
standalones-asked id (x ∷ xs) = omega (arith, standalones-asked id xs)

bundles-only :
    (id : String) (ids : List String)
    → asked_for (standalone_refresh id) (all_of bundle_refresh ids) ≡ 0
bundles-only id [] = refl
bundles-only id (x ∷ xs) = omega (arith, bundles-only id xs)

standalones-only :
    (id : String) (ids : List String)
    → asked_for (bundle_refresh id) (all_of standalone_refresh ids) ≡ 0
standalones-only id [] = refl
standalones-only id (x ∷ xs) = omega (arith, standalones-only id xs)

module _ (returns : ℕ → Refresh → Bool) where
  resume_all-asked :
      (x : Refresh) (kind : String → Refresh) (ids : List String) (r : Resumed)
      → asked_for x (resume_all returns kind ids r).asked
        ≡ asked_for x r.asked + asked_for x (all_of kind ids)
  unfolding resume_all resume
  resume_all-asked x kind [] r = omega arith
  resume_all-asked x kind (id ∷ ids) r = omega (
    arith,
    asked_for-append x r.asked (kind id),
    resume_all-asked x kind ids (resume returns (kind id) r),
  )

  resume-few :
      (x : Refresh) (r : Resumed)
      → r.resumed ≤ length r.asked
      → (resume returns x r).resumed ≤ length (resume returns x r).asked
  unfolding resume
  resume-few x r h = ground (arith, length-append r.asked (x ∷ []))

  resume_all-few :
      (kind : String → Refresh) (ids : List String) (r : Resumed)
      → r.resumed ≤ length r.asked
      → (resume_all returns kind ids r).resumed ≤ length (resume_all returns kind ids r).asked
  unfolding resume_all
  resume_all-few kind [] r h = h
  resume_all-few kind (id ∷ ids) r h = resume_all-few kind ids _ (resume-few (kind id) r h)

  -- Whatever rows the query gives and whichever refreshes raise: a pass refreshes each bundle with a
  -- row among them exactly once and no other bundle, each deployment on its own as often as it is
  -- among them, and it counts at most as many as it has asked for.
  pub resume_deployments-Once :
      (pairs : List (String × Option String)) (id : String)
      → (asked_for (bundle_refresh id) (resume_deployments returns pairs).asked
          ≡ one_of (any (is_of_bundle id) pairs))
        × (asked_for (standalone_refresh id) (resume_deployments returns pairs).asked
            ≡ rows_alone id pairs)
        × ((resume_deployments returns pairs).resumed
            ≤ length (resume_deployments returns pairs).asked)
  unfolding resume_deployments
  resume_deployments-Once pairs id =
      let empty : Targets = record { bundle_ids = []; standalone_ids = [] } in
      let found = split_pairs pairs empty in
      let start : Resumed = record { asked = []; resumed = 0 } in
      let half = resume_all returns bundle_refresh found.bundle_ids start in
      (
        ground (
          arith,
          resume_all-asked (bundle_refresh id) bundle_refresh found.bundle_ids start,
          resume_all-asked (bundle_refresh id) standalone_refresh found.standalone_ids half,
          bundles-asked id found.bundle_ids,
          standalones-only id found.standalone_ids,
          split_pairs-bundle id pairs empty,
        ),
        omega (
          arith,
          resume_all-asked (standalone_refresh id) bundle_refresh found.bundle_ids start,
          resume_all-asked (standalone_refresh id) standalone_refresh found.standalone_ids half,
          bundles-only id found.bundle_ids,
          standalones-asked id found.standalone_ids,
          split_pairs-alone id pairs empty,
        ),
        resume_all-few standalone_refresh found.standalone_ids half
            (resume_all-few bundle_refresh found.bundle_ids start (omega arith)),
      )
