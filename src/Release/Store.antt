-- ===== src/Release/Store.antt =====
-- The releases table behind the repository
-- (app/infrastructure/sqlite/release/release_repository.py and release_dto.py, and the unique
-- constraint of app/db/models/release.py). A table is the list of its rows.
use release_controller.Prelude.{
  ℕ, suc, String, Bool, true, false, ◌&&◌, Option, none, some, List, [], ◌∷◌, ◌++◌, any, str_eq,
  ◌==◌, if◌then◌else◌, ok, err, ◌≡◌, ◌≢◌, refl, eq_iff, arith, Bool-cases, inl, inr,
}
use release_controller.Release.{ReleaseStatus, Release, duplicate_release, Raises, same_status}

abbrev pub Table : Type 0
Table = List Release

unfoldable pub find_by_id : String → Table → Option Release
find_by_id key [] = none
find_by_id key (row ∷ rows) = if str_eq row.id key then some row else find_by_id key rows

-- The columns of `MUTABLE_FIELDS` written onto a row.
abbrev pub apply_values : Release → Release → Release
apply_values entity row = record row {
  status = entity.status;
  updated_at = entity.updated_at;
  approved_by = entity.approved_by;
  approved_at = entity.approved_at;
  rejected_by = entity.rejected_by;
  rejected_at = entity.rejected_at;
  deploy_started_at = entity.deploy_started_at;
  deploy_finished_at = entity.deploy_finished_at;
  message = entity.message;
}

-- `WHERE id = … AND status = …`
abbrev pub matches : Release → ReleaseStatus → Release → Bool
matches entity expected row = str_eq row.id entity.id && same_status row.status expected

-- The UPDATE, with its row count.
unfoldable pub update_rows : Release → ReleaseStatus → Table → Table × ℕ
update_rows entity expected [] = ([], 0)
update_rows entity expected (row ∷ rows) =
    let (rest, count) = update_rows entity expected rows in
    if matches entity expected row
    then (apply_values entity row ∷ rest, suc count)
    else (row ∷ rest, count)

unfoldable pub save_transition : Release → ReleaseStatus → Table → Table × Bool
save_transition entity expected rows =
    let (rows', count) = update_rows entity expected rows in (rows', count == 1)

-- `uq_releases_repository_commit_environment`
abbrev pub same_release : Release → Release → Bool
same_release a b =
    str_eq a.repository b.repository
    && str_eq a.commit_sha b.commit_sha
    && str_eq a.environment b.environment

unfoldable pub add : Release → Table → Raises Table
add release rows =
    if any (same_release release) rows then err duplicate_release else ok (rows ++ release ∷ [])

-- The primary key: no identifier stands twice.
abbrev pub HasUniqueIds : Table → Type 0
HasUniqueIds [] = Unit
HasUniqueIds (row ∷ rows) = (find_by_id row.id rows ≡ none) × HasUniqueIds rows

-- An UPDATE whose key is not in the table writes nothing.
pub update_rows_absent :
    (entity : Release) (expected : ReleaseStatus) (rows : Table)
    → find_by_id entity.id rows ≡ none
    → update_rows entity expected rows ≡ (rows, 0)
unfolding find_by_id update_rows
update_rows_absent entity expected [] h = refl
update_rows_absent entity expected (row ∷ rows) h =
    ground (arith, update_rows_absent entity expected rows)

-- An UPDATE against a row in another status writes nothing.
pub update_rows_stale :
    (entity : Release) (expected : ReleaseStatus) (rows : Table) (current : Release)
    → HasUniqueIds rows
    → find_by_id entity.id rows ≡ some current
    → same_status current.status expected ≡ false
    → update_rows entity expected rows ≡ (rows, 0)
unfolding find_by_id update_rows
update_rows_stale entity expected [] current u h d = refl
update_rows_stale entity expected (row ∷ rows) current u h d = ground (
  arith,
  eq_iff row.id entity.id,
  update_rows_stale entity expected rows current u.1,
  update_rows_absent entity expected rows,
)

-- An UPDATE against a row in the expected status writes that one row.
pub update_rows_fresh :
    (entity : Release) (expected : ReleaseStatus) (rows : Table) (current : Release)
    → HasUniqueIds rows
    → find_by_id entity.id rows ≡ some current
    → same_status current.status expected ≡ true
    → ((update_rows entity expected rows).1 ≡ 1)
      × (find_by_id entity.id (update_rows entity expected rows).0
          ≡ some (apply_values entity current))
unfolding find_by_id update_rows
update_rows_fresh entity expected [] current u h d = ground arith
update_rows_fresh entity expected (row ∷ rows) current u h d = ground (
  arith,
  eq_iff row.id entity.id,
  update_rows_fresh entity expected rows current u.1,
  update_rows_absent entity expected rows,
)

pub find_by_id-id :
    (key : String) (rows : Table) (r : Release) → find_by_id key rows ≡ some r → r.id ≡ key
unfolding find_by_id
find_by_id-id key [] r h = ground arith
find_by_id-id key (row ∷ rows) r h = ground (arith, eq_iff row.id key, find_by_id-id key rows r)

-- An UPDATE of one release leaves every other release as it was.
pub update_rows-find_ne :
    (key : String) (entity : Release) (expected : ReleaseStatus) (rows : Table)
    → key ≢ entity.id
    → find_by_id key (update_rows entity expected rows).0 ≡ find_by_id key rows
unfolding find_by_id update_rows
update_rows-find_ne key entity expected [] ne = refl
update_rows-find_ne key entity expected (row ∷ rows) ne = ground (
  arith,
  eq_iff row.id key,
  eq_iff row.id entity.id,
  update_rows-find_ne key entity expected rows,
)

pub update_rows-find_none :
    (key : String) (entity : Release) (expected : ReleaseStatus) (rows : Table)
    → find_by_id key rows ≡ none
    → find_by_id key (update_rows entity expected rows).0 ≡ none
unfolding find_by_id update_rows
update_rows-find_none key entity expected [] h = refl
update_rows-find_none key entity expected (row ∷ rows) h =
    let rest = update_rows-find_none key entity expected rows in
    elim (Bool-cases (matches entity expected row)) [
      | inl m ↦ rw m (ground (arith, rest))
      | inr m ↦ rw m (ground (arith, rest))
    ]

pub update_rows-HasUniqueIds :
    (entity : Release) (expected : ReleaseStatus) (rows : Table)
    → HasUniqueIds rows
    → HasUniqueIds (update_rows entity expected rows).0
unfolding update_rows
update_rows-HasUniqueIds entity expected [] u = tt
update_rows-HasUniqueIds entity expected (row ∷ rows) u = ground (
  arith,
  update_rows-HasUniqueIds entity expected rows u.1,
  update_rows-find_none row.id entity expected rows u.0,
)
