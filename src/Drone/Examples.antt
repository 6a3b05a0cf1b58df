-- ===== src/Drone/Examples.antt =====
-- A repository with two promotions of one build (app/services/drone_build_service.py,
-- app/services/ci_policy.py).
use release_controller.Prelude.{
  String, ℕ, true, none, some, Option, List, [], ◌∷◌, All, ◌≡◌, ◌≢◌, refl, ok, err,
}
use release_controller.Drone.Fixtures.{api}
use release_controller.Drone.{DroneStage, is_promotion_of, DroneBuild, other, stages_succeeded}
use release_controller.Drone.Builds.{DroneClient, list_builds, find_promotion_build}
use release_controller.Drone.Stages.{IsDeployed, stages_succeeded-IsDeployed}
use release_controller.Drone.Search.{Search, find_promotion_build-Search}

abbrev deploy_stage : DroneStage
deploy_stage = record {
  number = 1;
  name = "deploy";
  status = "success";
  steps =
      record { number = 1; name = "clone"; status = "success"; exit_code = some 0 }
      ∷ record { number = 2; name = "rollout"; status = "success"; exit_code = some 0 }
      ∷ [];
}

abbrev push : DroneBuild
push = record {
  number = 7;
  status = "success";
  event = "push";
  parent = none;
  target = none;
  branch = "main";
  commit_sha = "abc";
  stages = [];
}

abbrev promotion : ℕ → DroneBuild
promotion number = record {
  number = number;
  status = "success";
  event = "promote";
  parent = some 7;
  target = some "production";
  branch = "main";
  commit_sha = "abc";
  stages = deploy_stage ∷ [];
}

abbrev history : List DroneBuild
history = promotion 9 ∷ push ∷ promotion 8 ∷ []

abbrev client : DroneClient
client = record {
  list_builds = λ call c owner name limit. ok history;
  get_build = λ call c owner name number. ok (promotion number);
  promote_build = λ call c owner name number target. err other;
}

client-answers : list_builds client 0 api 50 ≡ ok history
unfolding list_builds
client-answers = refl

find_promotion_build-Search_example :
    (o : Option DroneBuild) × (find_promotion_build client 0 api 7 "production" ≡ ok o)
    × Search 7 "production" history o
find_promotion_build-Search_example =
    find_promotion_build-Search client 0 api 7 "production" history client-answers

-- The search takes the later of the two.
finds_nine : find_promotion_build client 0 api 7 "production" ≡ ok (some (promotion 9))
unfolding find_promotion_build is_promotion_of
finds_nine = refl

abbrev required : List String
required = "deploy" ∷ []

policy-content : stages_succeeded (promotion 9) required true ≡ true
unfolding stages_succeeded
policy-content = refl

stages_succeeded-IsDeployed_example : (required ≢ []) × All (IsDeployed (promotion 9)) required
stages_succeeded-IsDeployed_example =
    stages_succeeded-IsDeployed (promotion 9) required policy-content
