-- ===== src/Deployment/Slots.antt =====
-- The promotion slots of app/db/models/orchestration.py (`ACTIVE_PROMOTION_STATUSES`,
-- `ACTIVE_PROMOTION_SLOT`, `uq_deployments_active_promotion`): their tests, and what these tell.
use mathlib.Core.Path.{subst}
use release_controller.Prelude.{
  any-rest, ℕ, String, ◌≡◌, refl, sym, ap, ◌≢◌, inl, inr, Bool, true, false, ◌&&◌, List, [], ◌∷◌,
  ◌++◌, arith, str_eq, eq_iff, any, All, All-append, ◌==◌, if◌then◌else◌, Bool-cases,
}
use release_controller.Workflow.{
  DeploymentStatus, waiting, promoting, deploying, success, failed, cancelled,
}
use release_controller.Deployment.{Deployment}

-- `status IN ACTIVE_PROMOTION_STATUSES`
abbrev pub occupies : DeploymentStatus → Bool
occupies DeploymentStatus.failed = false
occupies DeploymentStatus.cancelled = false
occupies _ = true

-- `ACTIVE_PROMOTION_SLOT`
pub record Slot : Type 0 where
  pub drone_connection_id : String
  pub drone_owner : String
  pub drone_repository : String
  pub source_build_number : ℕ
  pub target : String

abbrev pub slot_of : Deployment → Slot
slot_of d = record {
  drone_connection_id = d.drone_connection_id;
  drone_owner = d.drone_owner;
  drone_repository = d.drone_repository;
  source_build_number = d.source_build_number;
  target = d.target;
}

unfoldable pub same_slot : Slot → Slot → Bool
same_slot a b =
    str_eq a.drone_connection_id b.drone_connection_id
    && str_eq a.drone_owner b.drone_owner
    && str_eq a.drone_repository b.drone_repository
    && (a.source_build_number == b.source_build_number)
    && str_eq a.target b.target

abbrev pub holds : Slot → Deployment → Bool
holds slot d = occupies d.status && same_slot (slot_of d) slot

-- Whether an active deployment holds the slot.
abbrev pub is_taken : Slot → List Deployment → Bool
is_taken slot rows = any (holds slot) rows

-- What the unique index does not allow.
unfoldable pub has_conflict : List Deployment → Bool
has_conflict [] = false
has_conflict (d ∷ ds) =
    let rest = has_conflict ds in
    if occupies d.status && is_taken (slot_of d) ds then true else rest

-- The deployment has neither failed nor been cancelled.
abbrev pub IsActive : Deployment → Type 0
IsActive d = (d.status ≢ failed) × (d.status ≢ cancelled)

-- The deployment is a promotion of this build of this repository to this target.
abbrev pub IsIn : Slot → Deployment → Type 0
IsIn slot d =
    (d.drone_connection_id ≡ slot.drone_connection_id)
    × (d.drone_owner ≡ slot.drone_owner)
    × (d.drone_repository ≡ slot.drone_repository)
    × (d.source_build_number ≡ slot.source_build_number)
    × (d.target ≡ slot.target)

-- Some active deployment is in the slot.
pub record Taken (slot : Slot) (rows : List Deployment) : Type 0 where
  pub before : List Deployment
  pub holder : Deployment
  pub behind : List Deployment
  pub split : rows ≡ before ++ holder ∷ behind
  pub active : IsActive holder
  pub inside : IsIn slot holder

abbrev pub Free : Slot → List Deployment → Type 0
Free slot rows = All (λ (d : Deployment). ¬ (IsActive d × IsIn slot d)) rows

abbrev pub Apart : Deployment → Deployment → Type 0
Apart d x = ¬ (IsActive d × (IsActive x × IsIn (slot_of d) x))

-- No two active deployments are in one slot.
abbrev pub IsExclusive : List Deployment → Type 0
IsExclusive [] = Unit
IsExclusive (d ∷ ds) = All (Apart d) ds × IsExclusive ds

occupies-active : (s : DeploymentStatus) → occupies s ≡ true → (s ≢ failed) × (s ≢ cancelled)
occupies-active waiting e = (λ f. absurd (cc), λ f. absurd (cc))
occupies-active promoting e = (λ f. absurd (cc), λ f. absurd (cc))
occupies-active deploying e = (λ f. absurd (cc), λ f. absurd (cc))
occupies-active success e = (λ f. absurd (cc), λ f. absurd (cc))
occupies-active failed e = absurd (cc)
occupies-active cancelled e = absurd (cc)

active-occupies : (s : DeploymentStatus) → (s ≢ failed) × (s ≢ cancelled) → occupies s ≡ true
active-occupies waiting h = refl
active-occupies promoting h = refl
active-occupies deploying h = refl
active-occupies success h = refl
active-occupies failed h = absurd (h.0 refl)
active-occupies cancelled h = absurd (h.1 refl)

same_slot-IsIn : (slot : Slot) (d : Deployment) → same_slot (slot_of d) slot ≡ true → IsIn slot d
unfolding same_slot
same_slot-IsIn slot d e = (
  (eq_iff d.drone_connection_id slot.drone_connection_id).0 (ground arith),
  (eq_iff d.drone_owner slot.drone_owner).0 (ground arith),
  (eq_iff d.drone_repository slot.drone_repository).0 (ground arith),
  ground arith,
  (eq_iff d.target slot.target).0 (ground arith),
)

IsIn-same_slot : (slot : Slot) (d : Deployment) → IsIn slot d → same_slot (slot_of d) slot ≡ true
unfolding same_slot
IsIn-same_slot slot d (a, b, c, n, t) =
    let a' = (eq_iff d.drone_connection_id slot.drone_connection_id).1 a in
    let b' = (eq_iff d.drone_owner slot.drone_owner).1 b in
    let c' = (eq_iff d.drone_repository slot.drone_repository).1 c in
    let t' = (eq_iff d.target slot.target).1 t in ground arith

holds-Taken : (slot : Slot) (d : Deployment) → holds slot d ≡ true → IsActive d × IsIn slot d
holds-Taken slot d e =
    (occupies-active d.status (ground arith), same_slot-IsIn slot d (ground arith))

Taken-holds : (slot : Slot) (d : Deployment) → IsActive d → IsIn slot d → holds slot d ≡ true
Taken-holds slot d a i =
    let x = active-occupies d.status a in let y = IsIn-same_slot slot d i in ground arith

pub is_taken-Taken :
    (slot : Slot) (rows : List Deployment) → is_taken slot rows ≡ true → Taken slot rows
is_taken-Taken slot [] e = absurd (cc)
is_taken-Taken slot (d ∷ ds) e = elim (Bool-cases (holds slot d)) [
  | inl here ↦
      let both = holds-Taken slot d here in
      record {
        before = [];
        holder = d;
        behind = ds;
        split = refl;
        active = both.0;
        inside = both.1;
      }
  | inr not_here ↦
      let deeper = is_taken-Taken slot ds (any-rest (holds slot) d ds not_here e) in
      record {
        before = d ∷ deeper.before;
        holder = deeper.holder;
        behind = deeper.behind;
        split = ap (λ l. d ∷ l) deeper.split;
        active = deeper.active;
        inside = deeper.inside;
      }
]

pub is_taken-Free :
    (slot : Slot) (rows : List Deployment) → is_taken slot rows ≡ false → Free slot rows
is_taken-Free slot [] e = tt
is_taken-Free slot (d ∷ ds) e = elim (Bool-cases (holds slot d)) [
  | inl here ↦ absurd (ground arith)
  | inr not_here ↦ (
    λ h. absurd (let yes = Taken-holds slot d h.0 h.1 in cc),
    is_taken-Free slot ds (ground arith),
  )
]

Free-Apart : (d : Deployment) (ds : List Deployment) → Free (slot_of d) ds → All (Apart d) ds
Free-Apart d [] h = tt
Free-Apart d (x ∷ xs) h = (λ k. h.0 k.1, Free-Apart d xs h.1)

idle-Apart : (d : Deployment) (ds : List Deployment) → occupies d.status ≡ false → All (Apart d) ds
idle-Apart d [] e = tt
idle-Apart d (x ∷ xs) e =
    (λ k. absurd (let yes = active-occupies d.status k.0 in cc), idle-Apart d xs e)

pub has_conflict-IsExclusive : (ds : List Deployment) → has_conflict ds ≡ false → IsExclusive ds
unfolding has_conflict
has_conflict-IsExclusive [] e = tt
has_conflict-IsExclusive (d ∷ ds) e =
    let rest = has_conflict-IsExclusive ds (ground arith) in
    elim (Bool-cases (occupies d.status)) [
      | inl active ↦ (Free-Apart d ds (is_taken-Free (slot_of d) ds (ground arith)), rest)
      | inr idle ↦ (idle-Apart d ds idle, rest)
    ]

Taken-clash :
    (d : Deployment) (before behind : List Deployment) (x : Deployment)
    → IsActive d
    → IsActive x
    → IsIn (slot_of d) x
    → ¬ All (Apart d) (before ++ x ∷ behind)
Taken-clash d [] behind x a b i h = h.0 (a, (b, i))
Taken-clash d (y ∷ before) behind x a b i h = Taken-clash d before behind x a b i h.1

pub has_conflict-clash : (ds : List Deployment) → has_conflict ds ≡ true → ¬ IsExclusive ds
unfolding has_conflict
has_conflict-clash [] e h = absurd (cc)
has_conflict-clash (d ∷ ds) e h = elim (Bool-cases (occupies d.status && is_taken (slot_of d) ds)) [
  | inl clash ↦
      let t = is_taken-Taken (slot_of d) ds (ground arith) in
      Taken-clash d t.before t.behind t.holder (occupies-active d.status (ground arith)) t.active
        t.inside (subst (λ l. All (Apart d) l) t.split h.0)
  | inr fine ↦ has_conflict-clash ds (ground arith) h.1
]

-- A deployment whose slot is free can be added.
pub append-IsExclusive :
    (ds : List Deployment) (d : Deployment)
    → Free (slot_of d) ds
    → IsExclusive ds
    → IsExclusive (ds ++ d ∷ [])
append-IsExclusive [] d f h = (tt, tt)
append-IsExclusive (x ∷ xs) d f h =
    let apart : Apart x d =
      λ k. f.0 (k.0, (sym k.1.1.0, sym k.1.1.1, sym k.1.1.2, sym k.1.1.3, sym k.1.1.4)) in
    (All-append (Apart x) xs (d ∷ []) h.0 (apart, tt), append-IsExclusive xs d f.1 h.1)
