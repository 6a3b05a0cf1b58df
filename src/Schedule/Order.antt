-- ===== src/Schedule/Order.antt =====
-- The query of `run_due` (app/services/schedule_service.py): the order of the rows that are due, and
-- how many of a time are among the first.
use release_controller.Prelude.{
  ℕ, zero, suc, ◌+◌, ◌≤◌, ◌<◌, min, ◌≡◌, refl, inl, inr, Bool, true, false, List, [], ◌∷◌, arith,
  All, leb, Bool-cases, if-both,
}
use release_controller.Schedule.{is_pending, DeploymentSchedule}
use release_controller.Schedule.Runner.{due_before, insert_due, due_rows, first_rows}

abbrev pub one_due : Bool → ℕ
one_due true = 1
one_due false = 0

-- How many rows are due at a time.
abbrev pub count_due : ℕ → List DeploymentSchedule → ℕ
count_due t [] = 0
count_due t (r ∷ rs) = one_due (due_before t r) + count_due t rs

insert_due-count :
    (t : ℕ) (r : DeploymentSchedule) (rs : List DeploymentSchedule)
    → count_due t (insert_due r rs) ≡ one_due (due_before t r) + count_due t rs
unfolding insert_due
insert_due-count t r [] = refl
insert_due-count t r (x ∷ xs) =
    if-both (λ l. count_due t l ≡ one_due (due_before t r) + count_due t (x ∷ xs))
      (leb r.scheduled_for_utc x.scheduled_for_utc) _ _ (λ _. refl)
      (λ _. omega (arith, insert_due-count t r xs))

-- A row that is due at a time is due later too.
due_later :
    (t now : ℕ) (r : DeploymentSchedule)
    → t ≤ now
    → due_before now r ≡ false
    → due_before t r ≡ false
due_later t now r h e = ground arith

pub due_rows-count :
    (t now : ℕ) (rows : List DeploymentSchedule)
    → t ≤ now
    → count_due t (due_rows now rows) ≡ count_due t rows
unfolding due_rows
due_rows-count t now [] h = refl
due_rows-count t now (r ∷ rs) h =
    if-both (λ l. count_due t l ≡ count_due t (r ∷ rs)) (due_before now r) _ _
      (λ _. omega (arith, insert_due-count t r (due_rows now rs), due_rows-count t now rs h))
      (λ e. rw (due_later t now r h e) omega (arith, due_rows-count t now rs h))

module _ {κ} (P : DeploymentSchedule → Type κ) where
  pub insert_due-All :
      (r : DeploymentSchedule) (rs : List DeploymentSchedule)
      → P r
      → All P rs
      → All P (insert_due r rs)
  unfolding insert_due
  insert_due-All r [] h hs = (h, tt)
  insert_due-All r (x ∷ xs) h hs =
      if-both (All P) (leb r.scheduled_for_utc x.scheduled_for_utc) _ _ (λ _. (h, hs))
        (λ _. (hs.0, insert_due-All r xs h hs.1))

  pub due_rows-All :
      (now : ℕ) (rows : List DeploymentSchedule) → All P rows → All P (due_rows now rows)
  unfolding due_rows
  due_rows-All now [] hs = tt
  due_rows-All now (r ∷ rs) hs =
      if-both (All P) (due_before now r) _ _
        (λ _. insert_due-All r (due_rows now rs) hs.0 (due_rows-All now rs hs.1))
        (λ _. due_rows-All now rs hs.1)

  pub first_rows-All :
      (n : ℕ) (rows : List DeploymentSchedule) → All P rows → All P (first_rows n rows)
  unfolding first_rows
  first_rows-All zero rows hs = tt
  first_rows-All (suc n) [] hs = tt
  first_rows-All (suc n) (r ∷ rs) hs = (hs.0, first_rows-All n rs hs.1)

abbrev Pending : DeploymentSchedule → Type 0
Pending r = is_pending r.status ≡ true

due_rows-Pending : (now : ℕ) (rows : List DeploymentSchedule) → All Pending (due_rows now rows)
unfolding due_rows
due_rows-Pending now [] = tt
due_rows-Pending now (r ∷ rs) =
    if-both (All Pending) (due_before now r) _ _
      (λ e. insert_due-All Pending r (due_rows now rs) (ground arith) (due_rows-Pending now rs))
      (λ _. due_rows-Pending now rs)

abbrev NotBefore : ℕ → DeploymentSchedule → Type 0
NotBefore t r = t ≤ r.scheduled_for_utc

abbrev IsSorted : List DeploymentSchedule → Type 0
IsSorted [] = Unit
IsSorted (r ∷ rs) = All (NotBefore r.scheduled_for_utc) rs × IsSorted rs

NotBefore-weaken :
    (s t : ℕ) (rs : List DeploymentSchedule) → s ≤ t → All (NotBefore t) rs → All (NotBefore s) rs
NotBefore-weaken s t [] h hs = tt
NotBefore-weaken s t (r ∷ rs) h hs = (omega (arith, h, hs.0), NotBefore-weaken s t rs h hs.1)

insert_due-IsSorted :
    (r : DeploymentSchedule) (rs : List DeploymentSchedule)
    → IsSorted rs
    → IsSorted (insert_due r rs)
unfolding insert_due
insert_due-IsSorted r [] h = (tt, tt)
insert_due-IsSorted r (x ∷ xs) h =
    if-both IsSorted (leb r.scheduled_for_utc x.scheduled_for_utc) _ _
      (λ e.
        let le : r.scheduled_for_utc ≤ x.scheduled_for_utc = ground arith in
        ((le, NotBefore-weaken r.scheduled_for_utc x.scheduled_for_utc xs le h.0), h))
      (λ e.
        let le : x.scheduled_for_utc ≤ r.scheduled_for_utc = ground arith in
        (insert_due-All (NotBefore x.scheduled_for_utc) r xs le h.0, insert_due-IsSorted r xs h.1))

due_rows-IsSorted : (now : ℕ) (rows : List DeploymentSchedule) → IsSorted (due_rows now rows)
unfolding due_rows
due_rows-IsSorted now [] = tt
due_rows-IsSorted now (r ∷ rs) =
    if-both IsSorted (due_before now r) _ _
      (λ _. insert_due-IsSorted r (due_rows now rs) (due_rows-IsSorted now rs))
      (λ _. due_rows-IsSorted now rs)

none_due :
    (s t : ℕ) (rs : List DeploymentSchedule) → t < s → All (NotBefore s) rs → count_due t rs ≡ 0
none_due s t [] h hs = refl
none_due s t (r ∷ rs) h hs =
    let later : due_before t r ≡ false = ground (arith, h, hs.0) in
    rw later omega (arith, none_due s t rs h hs.1)

-- Among the first rows of a sorted list are as many that are due at a time as there is room for.
first_rows-count :
    (n t : ℕ) (rs : List DeploymentSchedule)
    → IsSorted rs
    → All Pending rs
    → min n (count_due t rs) ≤ count_due t (first_rows n rs)
unfolding first_rows
first_rows-count zero t rs h p = omega arith
first_rows-count (suc n) t [] h p = omega arith
first_rows-count (suc n) t (r ∷ rs) h p = elim (Bool-cases (due_before t r)) [
  | inl e ↦ rw e omega (arith, first_rows-count n t rs h.1 p.1)
  | inr e ↦
      let late : t < r.scheduled_for_utc = ground (arith, p.0) in
      rw e rw (none_due r.scheduled_for_utc t rs late h.0) omega arith
]

-- The rows that one pass of the query takes.
pub due_first-count :
    (n t now : ℕ) (rows : List DeploymentSchedule)
    → t ≤ now
    → min n (count_due t rows) ≤ count_due t (first_rows n (due_rows now rows))
due_first-count n t now rows h = omega (
  arith,
  due_rows-count t now rows h,
  first_rows-count n t (due_rows now rows) (due_rows-IsSorted now rows) (due_rows-Pending now rows),
)
