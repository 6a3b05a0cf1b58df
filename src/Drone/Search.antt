-- ===== src/Drone/Search.antt =====
-- The search for a promotion that Drone has already (app/services/drone_build_service.py,
-- `find_promotion_build`).
use release_controller.Prelude.{
  ℕ, String, Bool, true, false, Option, none, some, List, [], ◌∷◌, All, ◌≡◌, refl, inl, inr, ◌≤◌,
  arith, ltb, if◌then◌else◌, ok, Bool-cases,
}
use release_controller.Registry.{ProjectComponent}
use release_controller.Drone.{DroneBuild, is_promotion_of}
use release_controller.Drone.Builds.{
  DroneClient, later_build, promotions, newest, list_builds, find_promotion_build,
}

-- The build is one of the list.
pub data Among (b : DroneBuild) : List DroneBuild → Type 0 where
  first : {bs : List DroneBuild} → Among b (b ∷ bs)
  behind : {x : DroneBuild} {bs : List DroneBuild} → Among b bs → Among b (x ∷ bs)

-- What is left of the list is a promotion of `source` to `target`.
abbrev Chosen : ℕ → String → List DroneBuild → DroneBuild → Type 0
Chosen source target bs b = Among b bs × (is_promotion_of b source target ≡ true)

abbrev UpTo : ℕ → String → List DroneBuild → ℕ → Type 0
UpTo source target bs n =
    All (λ (x : DroneBuild). is_promotion_of x source target ≡ true → x.number ≤ n) bs

abbrev AtMost : List DroneBuild → ℕ → Type 0
AtMost bs n = All (λ (x : DroneBuild). x.number ≤ n) bs

pub data Search (source : ℕ) (target : String) (bs : List DroneBuild)
    : Option DroneBuild → Type 0 where
  absent : All (λ x. is_promotion_of x source target ≡ false) bs → Search source target bs none
  present :
      {b : DroneBuild}
      → Among b bs
      → is_promotion_of b source target ≡ true
      → UpTo source target bs b.number
      → Search source target bs (some b)

raise_bound : (bs : List DroneBuild) (m n : ℕ) → m ≤ n → AtMost bs m → AtMost bs n
raise_bound [] m n l h = tt
raise_bound (b ∷ bs) m n l h = (omega (arith, l, h.0), raise_bound bs m n l h.1)

record Best (best : DroneBuild) (bs : List DroneBuild) (r : DroneBuild) : Type 0 where
  from : Among r (best ∷ bs)
  over : best.number ≤ r.number
  all : AtMost bs r.number

skip_second : {r x b : DroneBuild} {bs : List DroneBuild} → Among r (x ∷ bs) → Among r (x ∷ b ∷ bs)
skip_second first = first
skip_second (behind m) = behind (behind m)

later_build-Best : (best : DroneBuild) (bs : List DroneBuild) → Best best bs (later_build best bs)
later_build-Best best [] = record { from = first; over = omega arith; all = tt }
later_build-Best best (b ∷ bs) = elim (Bool-cases (ltb best.number b.number)) [
  | inl e ↦
      let r = later_build-Best b bs in
      rw e record { from = behind r.from; over = ground (arith, r.over); all = (r.over, r.all) }
  | inr e ↦
      let r = later_build-Best best bs in
      rw e
        record { from = skip_second r.from; over = r.over; all = (ground (arith, r.over), r.all) }
]

module _ (source : ℕ) (target : String) where
  abbrev keep_first : Bool → DroneBuild → List DroneBuild → List DroneBuild
  keep_first k x rest = if k then x ∷ rest else rest

  keep_first-Among :
      (k : Bool) (x b : DroneBuild) (bs rest : List DroneBuild)
      → is_promotion_of x source target ≡ k
      → Among b (keep_first k x rest)
      → (Among b rest → Chosen source target bs b)
      → Chosen source target (x ∷ bs) b
  keep_first-Among true x b bs rest e first go = (first, e)
  keep_first-Among true x b bs rest e (behind m) go = let h = go m in (behind h.0, h.1)
  keep_first-Among false x b bs rest e m go = let h = go m in (behind h.0, h.1)

  promotions-Among :
      (bs : List DroneBuild) (b : DroneBuild)
      → Among b (promotions source target bs)
      → Chosen source target bs b
  promotions-Among [] b m = elim m [ ]
  promotions-Among (x ∷ bs) b m = keep_first-Among _ x b bs _ refl m (promotions-Among bs b)

  keep_first-UpTo :
      (k : Bool) (x : DroneBuild) (n : ℕ) (bs rest : List DroneBuild)
      → is_promotion_of x source target ≡ k
      → AtMost (keep_first k x rest) n
      → (AtMost rest n → UpTo source target bs n)
      → UpTo source target (x ∷ bs) n
  keep_first-UpTo true x n bs rest e h go = (λ w. h.0, go h.1)
  keep_first-UpTo false x n bs rest e h go = (λ w. absurd (cc), go h)

  promotions-UpTo :
      (bs : List DroneBuild) (n : ℕ)
      → AtMost (promotions source target bs) n
      → UpTo source target bs n
  promotions-UpTo [] n h = tt
  promotions-UpTo (x ∷ bs) n h = keep_first-UpTo _ x n bs _ refl h (promotions-UpTo bs n)

  keep_first-none :
      (k : Bool) (x : DroneBuild) (bs rest : List DroneBuild)
      → is_promotion_of x source target ≡ k
      → keep_first k x rest ≡ []
      → (rest ≡ [] → All (λ y. is_promotion_of y source target ≡ false) bs)
      → All (λ y. is_promotion_of y source target ≡ false) (x ∷ bs)
  keep_first-none true x bs rest e h go = absurd (cc)
  keep_first-none false x bs rest e h go = (e, go h)

  promotions-none :
      (bs : List DroneBuild)
      → promotions source target bs ≡ []
      → All (λ y. is_promotion_of y source target ≡ false) bs
  promotions-none [] h = tt
  promotions-none (x ∷ bs) h = keep_first-none _ x bs _ refl h (promotions-none bs)

  newest-Search :
      (bs found : List DroneBuild)
      → promotions source target bs ≡ found
      → Search source target bs (newest found)
  newest-Search bs [] e = absent (promotions-none bs e)
  newest-Search bs (b ∷ rest) e =
      let best = later_build-Best b rest in
      let chosen = promotions-Among bs (later_build b rest) (rw e best.from) in
      present chosen.0 chosen.1 (promotions-UpTo bs _ (rw e (best.over, best.all)))

-- When Drone answers with its builds, the search finds one of them that promotes the source build to
-- the target, with the greatest number among all that do, and it finds nothing only if none does.
pub find_promotion_build-Search :
    (client : DroneClient) (call : ℕ) (c : ProjectComponent) (source : ℕ) (target : String)
    (builds : List DroneBuild)
    → list_builds client call c 50 ≡ ok builds
    → (o : Option DroneBuild) × (find_promotion_build client call c source target ≡ ok o)
      × Search source target builds o
unfolding find_promotion_build
find_promotion_build-Search client call c source target builds e =
    (newest (promotions source target builds), rw e refl, newest-Search source target builds _ refl)
