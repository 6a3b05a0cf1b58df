-- ===== src/Schedule/Table.antt =====
-- The table of schedules under its primary key, and the writes of `_run_one` to it
-- (app/services/schedule_service.py).
use release_controller.Prelude.{
  ℕ, zero, suc, ◌+◌, ◌≤◌, String, ◌≡◌, refl, sym, ap, ◌∙◌, ◌≢◌, inl, inr, false, some, List, [],
  ◌∷◌, arith, str_eq, eq_iff, All, leb, Bool-cases, if-both,
}
use mathlib.Core.Path.{subst}
use release_controller.Schedule.{DeploymentSchedule}
use release_controller.Schedule.Runner.{
  due_before, find_row, put_row, insert_due, due_rows, first_rows,
}
use release_controller.Schedule.Order.{
  one_due, count_due, insert_due-All, due_rows-All, first_rows-All,
}

-- The identifiers of the rows are distinct: they are the primary key.
abbrev pub Others : String → DeploymentSchedule → Type 0
Others id r = r.id ≢ id

abbrev pub HasDistinctIds : List DeploymentSchedule → Type 0
HasDistinctIds [] = Unit
HasDistinctIds (r ∷ rs) = All (Others r.id) rs × HasDistinctIds rs

insert_due-HasDistinctIds :
    (r : DeploymentSchedule) (rs : List DeploymentSchedule)
    → All (Others r.id) rs
    → HasDistinctIds rs
    → HasDistinctIds (insert_due r rs)
unfolding insert_due
insert_due-HasDistinctIds r [] o h = (tt, tt)
insert_due-HasDistinctIds r (x ∷ xs) o h =
    if-both HasDistinctIds (leb r.scheduled_for_utc x.scheduled_for_utc) _ _ (λ _. (o, h))
      (λ _. (
        insert_due-All (Others x.id) r xs (λ e. o.0 (sym e)) h.0,
        insert_due-HasDistinctIds r xs o.1 h.1,
      ))

pub due_rows-HasDistinctIds :
    (now : ℕ) (rows : List DeploymentSchedule)
    → HasDistinctIds rows
    → HasDistinctIds (due_rows now rows)
unfolding due_rows
due_rows-HasDistinctIds now [] h = tt
due_rows-HasDistinctIds now (r ∷ rs) h =
    if-both HasDistinctIds (due_before now r) _ _
      (λ _.
        insert_due-HasDistinctIds r (due_rows now rs) (due_rows-All (Others r.id) now rs h.0)
          (due_rows-HasDistinctIds now rs h.1))
      (λ _. due_rows-HasDistinctIds now rs h.1)

pub first_rows-HasDistinctIds :
    (n : ℕ) (rows : List DeploymentSchedule)
    → HasDistinctIds rows
    → HasDistinctIds (first_rows n rows)
unfolding first_rows
first_rows-HasDistinctIds zero rows h = tt
first_rows-HasDistinctIds (suc n) [] h = tt
first_rows-HasDistinctIds (suc n) (r ∷ rs) h =
    (first_rows-All (Others r.id) n rs h.0, first_rows-HasDistinctIds n rs h.1)

-- A row stands in the table under its identifier.
abbrev pub IsIn : List DeploymentSchedule → DeploymentSchedule → Type 0
IsIn rows x = find_row x.id rows ≡ some x

find_row-tail :
    (r x : DeploymentSchedule) (rs : List DeploymentSchedule)
    → x.id ≢ r.id
    → find_row x.id (r ∷ rs) ≡ find_row x.id rs
unfolding find_row
find_row-tail r x rs o = ground (arith, eq_iff r.id x.id)

IsIn-tail :
    (r : DeploymentSchedule) (rs xs : List DeploymentSchedule)
    → All (Others r.id) xs
    → All (IsIn rs) xs
    → All (IsIn (r ∷ rs)) xs
IsIn-tail r rs [] o h = tt
IsIn-tail r rs (x ∷ xs) o h = (find_row-tail r x rs o.0 ∙ h.0, IsIn-tail r rs xs o.1 h.1)

find_row-head :
    (r : DeploymentSchedule) (rs : List DeploymentSchedule) → find_row r.id (r ∷ rs) ≡ some r
unfolding find_row
find_row-head r rs = ground (arith, eq_iff r.id r.id)

pub IsIn-own : (rows : List DeploymentSchedule) → HasDistinctIds rows → All (IsIn rows) rows
IsIn-own [] h = tt
IsIn-own (r ∷ rs) h = (find_row-head r rs, IsIn-tail r rs rs h.0 (IsIn-own rs h.1))

-- What `put_row` leaves of the numbers and of the other rows.
pub put_row-less :
    (t : ℕ) (id : String) (row : DeploymentSchedule) (rows : List DeploymentSchedule)
    → due_before t row ≡ false
    → count_due t (put_row id row rows) ≤ count_due t rows
unfolding put_row
put_row-less t id row [] e = omega arith
put_row-less t id row (x ∷ xs) e =
    if-both (λ l. count_due t l ≤ count_due t (x ∷ xs)) (str_eq x.id id) _ _
      (λ _. rw e omega (arith, put_row-less t id row xs e))
      (λ _. omega (arith, put_row-less t id row xs e))

pub put_row-count :
    (t : ℕ) (id : String) (r row : DeploymentSchedule) (rows : List DeploymentSchedule)
    → due_before t row ≡ false
    → find_row id rows ≡ some r
    → count_due t (put_row id row rows) + one_due (due_before t r) ≤ count_due t rows
unfolding put_row find_row
put_row-count t id r row [] e f = absurd (cc)
put_row-count t id r row (x ∷ xs) e f = elim (Bool-cases (str_eq x.id id)) [
  | inl same ↦
      let found : x ≡ r = ground (arith, f, same) in
      rw same rw e omega
        (arith, put_row-less t id row xs e, ap (λ y. one_due (due_before t y)) found)
  | inr other ↦
      let below : find_row id xs ≡ some r = ground (arith, f, other) in
      rw other omega (arith, put_row-count t id r row xs e below)
]

pub put_row-find :
    (id other : String) (row : DeploymentSchedule) (rows : List DeploymentSchedule)
    → row.id ≡ id
    → other ≢ id
    → find_row other (put_row id row rows) ≡ find_row other rows
unfolding put_row find_row
put_row-find id other row [] e o = refl
put_row-find id other row (x ∷ xs) e o = ground (
  arith,
  eq_iff x.id id,
  eq_iff row.id other,
  eq_iff x.id other,
  put_row-find id other row xs e o,
)

put_row-Others :
    (i id : String) (row : DeploymentSchedule) (rows : List DeploymentSchedule)
    → row.id ≡ id
    → All (Others i) rows
    → All (Others i) (put_row id row rows)
unfolding put_row
put_row-Others i id row [] e h = tt
put_row-Others i id row (x ∷ xs) e h =
    if-both (All (Others i)) (str_eq x.id id) _ _
      (λ same. (λ q. h.0 ((eq_iff x.id id).0 same ∙ sym e ∙ q), put_row-Others i id row xs e h.1))
      (λ _. (h.0, put_row-Others i id row xs e h.1))

pub put_row-HasDistinctIds :
    (id : String) (row : DeploymentSchedule) (rows : List DeploymentSchedule)
    → row.id ≡ id
    → HasDistinctIds rows
    → HasDistinctIds (put_row id row rows)
unfolding put_row
put_row-HasDistinctIds id row [] e h = tt
put_row-HasDistinctIds id row (x ∷ xs) e h =
    if-both HasDistinctIds (str_eq x.id id) _ _
      (λ same.
        let same_id : x.id ≡ row.id = (eq_iff x.id id).0 same ∙ sym e in
        (
          subst (λ i. All (Others i) (put_row id row xs)) same_id
              (put_row-Others x.id id row xs e h.0),
          put_row-HasDistinctIds id row xs e h.1,
        ))
      (λ _. (put_row-Others x.id id row xs e h.0, put_row-HasDistinctIds id row xs e h.1))

pub find_row-id :
    (id : String) (r : DeploymentSchedule) (rows : List DeploymentSchedule)
    → find_row id rows ≡ some r
    → r.id ≡ id
unfolding find_row
find_row-id id r [] f = absurd (cc)
find_row-id id r (x ∷ xs) f = ground (arith, eq_iff x.id id, find_row-id id r xs)
