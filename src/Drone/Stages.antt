-- ===== src/Drone/Stages.antt =====
-- What a caller of app/services/ci_policy.py (`stages_succeeded`) may rely on.
use release_controller.Prelude.{
  String, ◌≡◌, refl, sym, ap, ◌∙◌, ◌≢◌, ◌⊎◌, inl, inr, Bool, true, false, not, ◌&&◌, ◌||◌, List, [],
  ◌∷◌, ◌++◌, arith, str_eq, eq_iff, any, All, Bool-cases,
}
use release_controller.Drone.{
  DroneStep, DroneStage, DroneBuild, named, deployed, stage_succeeded, all_succeeded,
  stages_succeeded,
}

-- A step that did some work, and was not the checkout.
abbrev worked : DroneStep → Bool
worked step = str_eq step.status "success" && not (str_eq step.name "clone")

abbrev went_wrong : DroneStep → Bool
went_wrong step = not (str_eq step.status "success" || str_eq step.status "skipped")

-- Some step among the steps succeeded, and it is not the checkout.
pub record DidWork (steps : List DroneStep) : Type 0 where
  pub before : List DroneStep
  pub step : DroneStep
  pub behind : List DroneStep
  pub split : steps ≡ before ++ step ∷ behind
  pub green : step.status ≡ "success"
  pub own : step.name ≢ "clone"

-- The only stage of a name among the stages of a build.
pub record IsOnly (name : String) (stages : List DroneStage) (stage : DroneStage) : Type 0 where
  pub before : List DroneStage
  pub behind : List DroneStage
  pub split : stages ≡ before ++ stage ∷ behind
  pub has_name : stage.name ≡ name
  pub none_before : All (λ (s : DroneStage). s.name ≢ name) before
  pub none_behind : All (λ (s : DroneStage). s.name ≢ name) behind

abbrev pub Passed : DroneStep → Type 0
Passed step = (step.status ≡ "success") ⊎ (step.status ≡ "skipped")

-- A required stage that was deployed: there is exactly one of its name, it succeeded, some step of
-- it other than the checkout did, and no step of it failed.
pub record IsDeployed (build : DroneBuild) (name : String) : Type 0 where
  pub stage : DroneStage
  pub only : IsOnly name build.stages stage
  pub green : stage.status ≡ "success"
  pub did_work : DidWork stage.steps
  pub none_failed : All Passed stage.steps

named-none :
    (name : String) (stages : List DroneStage)
    → named name stages ≡ []
    → All (λ (s : DroneStage). s.name ≢ name) stages
named-none name [] e = tt
named-none name (s ∷ ss) e = elim (Bool-cases (str_eq s.name name)) [
  | inl hit ↦ absurd (ground arith)
  | inr miss ↦ (
    λ same. absurd (let hit = (eq_iff s.name name).1 same in cc),
    named-none name ss (ground arith),
  )
]

named-IsOnly :
    (name : String) (stages : List DroneStage) (x : DroneStage)
    → named name stages ≡ x ∷ []
    → IsOnly name stages x
named-IsOnly name [] x e = absurd (cc)
named-IsOnly name (s ∷ ss) x e = elim (Bool-cases (str_eq s.name name)) [
  | inl hit ↦
      let both : s ∷ named name ss ≡ x ∷ [] = ground arith in
      let here : s ≡ x = cc in
      let rest : named name ss ≡ [] = cc in
      record {
        before = [];
        behind = ss;
        split = ap (λ y. y ∷ ss) here;
        has_name = ap (λ (y : DroneStage). y.name) (sym here) ∙ (eq_iff s.name name).0 hit;
        none_before = tt;
        none_behind = named-none name ss rest;
      }
  | inr miss ↦
      let deeper = named-IsOnly name ss x (ground arith) in
      record {
        before = s ∷ deeper.before;
        behind = deeper.behind;
        split = ap (λ l. s ∷ l) deeper.split;
        has_name = deeper.has_name;
        none_before =
            (λ same. absurd (let hit = (eq_iff s.name name).1 same in cc), deeper.none_before);
        none_behind = deeper.none_behind;
      }
]

any-DidWork : (steps : List DroneStep) → any worked steps ≡ true → DidWork steps
any-DidWork [] e = absurd (cc)
any-DidWork (s ∷ ss) e = elim (Bool-cases (worked s)) [
  | inl here ↦ record {
    before = [];
    step = s;
    behind = ss;
    split = refl;
    green = (eq_iff s.status "success").0 (ground arith);
    own = λ same. absurd (let hit = (eq_iff s.name "clone").1 same in ground arith);
  }
  | inr not_here ↦
      let deeper = any-DidWork ss (ground arith) in
      record {
        before = s ∷ deeper.before;
        step = deeper.step;
        behind = deeper.behind;
        split = ap (λ l. s ∷ l) deeper.split;
        green = deeper.green;
        own = deeper.own;
      }
]

none-Passed : (steps : List DroneStep) → any went_wrong steps ≡ false → All Passed steps
none-Passed [] e = tt
none-Passed (s ∷ ss) e = (
  elim (Bool-cases (str_eq s.status "success")) [
    | inl green ↦ inl ((eq_iff s.status "success").0 green)
    | inr other ↦ inr ((eq_iff s.status "skipped").0 (ground arith))
  ],
  none-Passed ss (ground arith),
)

stage_succeeded-IsDeployed :
    (build : DroneBuild) (name : String) (found : List DroneStage)
    → named name build.stages ≡ found
    → stage_succeeded true found ≡ true
    → IsDeployed build name
unfolding stage_succeeded deployed
stage_succeeded-IsDeployed build name [] e h = absurd (ground arith)
stage_succeeded-IsDeployed build name (x ∷ y ∷ ys) e h = absurd (ground arith)
stage_succeeded-IsDeployed build name (x ∷ []) e h = record {
  stage = x;
  only = named-IsOnly name build.stages x e;
  green = (eq_iff x.status "success").0 (ground arith);
  did_work = any-DidWork x.steps (ground arith);
  none_failed = none-Passed x.steps (ground arith);
}

all_succeeded-IsDeployed :
    (build : DroneBuild) (names : List String)
    → all_succeeded build true names ≡ true
    → All (IsDeployed build) names
unfolding all_succeeded
all_succeeded-IsDeployed build [] h = tt
all_succeeded-IsDeployed build (name ∷ names) h =
    elim (Bool-cases (stage_succeeded true (named name build.stages))) [
      | inl e ↦ (
        stage_succeeded-IsDeployed build name _ refl e,
        all_succeeded-IsDeployed build names (ground arith),
      )
      | inr e ↦ absurd (ground arith)
    ]

-- If the CI policy is content with a deployment, some stage is required, and of every required
-- stage there is exactly one in the build, all others having another name, it succeeded, a step other
-- than the checkout succeeded in it, and no step of it did anything but succeed or be skipped.
pub stages_succeeded-IsDeployed :
    (build : DroneBuild) (names : List String)
    → stages_succeeded build names true ≡ true
    → (names ≢ []) × All (IsDeployed build) names
unfolding stages_succeeded
stages_succeeded-IsDeployed build [] h = absurd (ground arith)
stages_succeeded-IsDeployed build (name ∷ names) h =
    (λ e. cc, all_succeeded-IsDeployed build (name ∷ names) h)
