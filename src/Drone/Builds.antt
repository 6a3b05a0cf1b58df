-- ===== src/Drone/Builds.antt =====
-- app/services/drone_build_service.py over the client, whose answers are parameters: the number of
-- the call stands first, so that one question may be answered differently later.
use release_controller.Prelude.{
  ℕ, String, ◌||◌, Option, none, some, List, [], ◌∷◌, ltb, str_eq, if◌then◌else◌, Outcome, ok, err,
  ◌>>=◌,
}
use release_controller.Registry.{ProjectComponent}
use release_controller.Drone.{
  DroneBuild, is_promotable, is_promotion_of, not_found_error, CallError, drone, other,
}

abbrev pub Answer : Type 0 → Type 0
Answer A = Outcome CallError A

-- `client_for(component)` and the calls on it.
pub record DroneClient : Type 0 where
  pub list_builds : ℕ → ProjectComponent → String → String → ℕ → Answer (List DroneBuild)
  pub get_build : ℕ → ProjectComponent → String → String → ℕ → Answer DroneBuild
  pub promote_build : ℕ → ProjectComponent → String → String → ℕ → String → Answer DroneBuild

-- `DroneRepository.of`
unfoldable pub repository_of : ProjectComponent → Answer (String × String)
repository_of c =
    if str_eq c.drone_owner "" || str_eq c.drone_repo ""
    then err other
    else ok (c.drone_owner, c.drone_repo)

-- `except DroneNotFoundError: raise BuildNotFoundError`, which has no `error_code`.
abbrev hide_not_found : Answer DroneBuild → Answer DroneBuild
hide_not_found (ok b) = ok b
hide_not_found (err (drone not_found_error)) = err other
hide_not_found (err e) = err e

-- `max(candidates, key=number)`: the first of the greatest.
abbrev pub later_build : DroneBuild → List DroneBuild → DroneBuild
later_build best [] = best
later_build best (b ∷ bs) = later_build (if ltb best.number b.number then b else best) bs

abbrev pub promotions : ℕ → String → List DroneBuild → List DroneBuild
promotions source target [] = []
promotions source target (b ∷ bs) =
    let rest = promotions source target bs in
    if is_promotion_of b source target then b ∷ rest else rest

abbrev pub newest : List DroneBuild → Option DroneBuild
newest [] = none
newest (b ∷ bs) = some (later_build b bs)

module _ (client : DroneClient) (call : ℕ) where
  unfoldable pub get_build : ProjectComponent → ℕ → Answer DroneBuild
  unfolding repository_of
  get_build c number = do
    (owner, name) ← repository_of c
    hide_not_found (client.get_build call c owner name number)

  unfoldable pub promote : ProjectComponent → ℕ → String → Answer DroneBuild
  unfolding repository_of
  promote c number target = do
    (owner, name) ← repository_of c
    client.promote_build call c owner name number target

  unfoldable pub list_builds : ProjectComponent → ℕ → Answer (List DroneBuild)
  unfolding repository_of
  list_builds c limit = do
    (owner, name) ← repository_of c
    client.list_builds call c owner name limit

  unfoldable pub find_promotion_build : ProjectComponent → ℕ → String → Answer (Option DroneBuild)
  unfolding list_builds
  find_promotion_build c source target = do
    builds ← list_builds c 50
    ok (newest (promotions source target builds))

-- `validate_promotable`: `none` is `BuildNotPromotableError`.
unfoldable pub validate_promotable :
    DroneClient → ℕ → ProjectComponent → ℕ → Answer (Option DroneBuild)
unfolding get_build
validate_promotable client call c number = do
  build ← get_build client call c number
  ok (if is_promotable build then some build else none)
