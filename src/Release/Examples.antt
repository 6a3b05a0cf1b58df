-- ===== src/Release/Examples.antt =====
-- Two requests for one release, run on concrete tables (app/usecase/release/*.py).
use release_controller.Prelude.{none, some, List, [], ◌∷◌, All, ◌≡◌, ◌≢◌, refl, ok, err}
use release_controller.Release.{Release, pending, approved, rejected, invalid_transition}
use release_controller.Release.Store.{save_transition, update_rows, HasUniqueIds, Table, find_by_id}
use release_controller.Release.Transition.{
  Action, approving, rejecting, starting, perform, Workflows, World, execute,
}
use release_controller.Release.Machine.{◌⟶*◌, IsConsistent}
use release_controller.Release.Requests.{Request, creating, acting, serve, serve-IsConsistent}
use release_controller.Release.History.{serve-⟶*, finished_is_final}
use release_controller.Release.Race.{one_winner, lost_race}

abbrev silent : Workflows
silent = record {
  Flows = Unit {0};
  create_for_release = λ id flows. flows;
  ensure_for_transition = λ r flows. ok flows;
  complete_step = λ id element step_data flows. ok flows;
}

abbrev request : Release
request = record {
  id = "r1";
  repository = "acme/api";
  branch = "main";
  commit_sha = "abc";
  environment = "production";
  status = pending;
  created_at = 5;
  updated_at = 5;
  approved_by = none;
  approved_at = none;
  rejected_by = none;
  rejected_at = none;
  deploy_started_at = none;
  deploy_finished_at = none;
  message = none;
}

abbrev refused : Release
refused = record request {
  status = rejected;
  rejected_by = some "bob";
  rejected_at = some 6;
  updated_at = 6;
}

abbrev allowed : Release
allowed = record request {
  status = approved;
  approved_by = some "ann";
  approved_at = some 7;
  updated_at = 7;
}

abbrev world : World silent
world = record { rows = request ∷ []; flows = tt }

abbrev closed_world : World silent
closed_world = record { rows = refused ∷ []; flows = tt }

abbrev approval_by_ann : Action
approval_by_ann = approving (some "ann") 7

abbrev rejection_by_bob : Action
rejection_by_bob = rejecting (some "bob") none 8

abbrev requests : List Request
requests =
    acting "r1" approval_by_ann
    ∷ creating "r2" "acme/web" "main" "def" "production" none 9
    ∷ acting "r1" (starting 10)
    ∷ []

abbrev after_approval : Table
after_approval = (execute silent (λ t. t) "r1" approval_by_ann world).1.rows

world_unique : HasUniqueIds world.rows
unfolding find_by_id
world_unique = (refl, tt)

allowed_unique : HasUniqueIds (allowed ∷ [])
unfolding find_by_id
allowed_unique = (refl, tt)

world-finds : find_by_id "r1" world.rows ≡ some request
unfolding find_by_id
world-finds = refl

allowed-finds : find_by_id "r1" (allowed ∷ []) ≡ some allowed
unfolding find_by_id
allowed-finds = refl

closed_world-finds : find_by_id "r1" closed_world.rows ≡ some refused
unfolding find_by_id
closed_world-finds = refl

abbrev rejected_at_8 : Release
rejected_at_8 = record request {
  status = rejected;
  rejected_by = some "bob";
  rejected_at = some 8;
  updated_at = 8;
}

bob-rejects : perform rejection_by_bob request ≡ ok (rejected_at_8, pending)
unfolding perform
bob-rejects = refl

request-IsConsistent : IsConsistent request
request-IsConsistent = record {
  approval_stamp = refl;
  rejection_stamp = refl;
  start_stamp = refl;
  finish_stamp = refl;
}

world-answers : (execute silent (λ t. t) "r1" approval_by_ann world).0 ≡ ok allowed
unfolding execute find_by_id save_transition update_rows
world-answers = refl

one_winner_example :
    ((late : Release)
      → (execute silent (λ _. after_approval) "r1" rejection_by_bob world).0 ≢ ok late)
    × ((execute silent (λ _. after_approval) "r1" rejection_by_bob world).1.rows ≡ after_approval)
one_winner_example =
    one_winner silent approval_by_ann rejection_by_bob "r1" world request allowed world_unique
      world-finds world-answers

lost_race_example :
    execute silent (λ _. allowed ∷ []) "r1" rejection_by_bob world
    ≡ (err (invalid_transition approved pending), record world { rows = allowed ∷ [] })
lost_race_example =
    lost_race silent (λ _. allowed ∷ []) "r1" rejection_by_bob world request rejected_at_8 allowed
      pending world-finds refl bob-rejects allowed_unique allowed-finds refl

serve-IsConsistent_example : All IsConsistent (serve silent requests world).rows
serve-IsConsistent_example = serve-IsConsistent silent requests world (request-IsConsistent, tt)

serve-⟶*_example :
    (later : Release) × (find_by_id "r1" (serve silent requests world).rows ≡ some later)
    × (pending ⟶* later.status)
serve-⟶*_example = serve-⟶* silent requests world "r1" request world-finds

finished_is_final_example : find_by_id "r1" (serve silent requests closed_world).rows ≡ some refused
finished_is_final_example =
    finished_is_final silent requests closed_world "r1" refused refl closed_world-finds
