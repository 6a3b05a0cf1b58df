-- ===== src/Deployment/Examples.antt =====
-- One deployment, promoted and polled on concrete rows (app/services/deployment_service.py).
use release_controller.Prelude.{◌≤◌, ◌≡◌, refl, ◌⊎◌, none, some, List, [], ◌∷◌, arith, length, err}
use release_controller.Deployment.Events.{tick}
use release_controller.Deployment.Promotion.{component_not_registered, promote}
use release_controller.Deployment.Refreshing.{refresh}
use release_controller.Deployment.Invariant.{IsSound}
use release_controller.Deployment.Sound.{refresh-IsSound, promote-IsSound}
use release_controller.Deployment.Quiet.{Quiet, refresh-Quiet}
use release_controller.Deployment.Claims.{
  Move, claiming, dispatching, refreshing, run, one_promotion,
}
use release_controller.Deployment.Attempts.{Attempted, promote-cases}
use release_controller.Deployment.Outcomes.{Poll, refresh-Poll}
use release_controller.Deployment.Fixtures.{prompt, silent, upstream, fresh, running, bundle, at}
use release_controller.Drone.Fixtures.{api}

-- Two sessions claim in turn, both send, and one of them polls in between.
abbrev rivals : List Move
rivals =
    claiming (upstream prompt) (fresh "a") (some bundle)
    ∷ claiming (upstream silent) (fresh "a") none
    ∷ refreshing (upstream silent) none
    ∷ dispatching (upstream prompt) api
    ∷ dispatching (upstream silent) api
    ∷ []

one_promotion_example :
    length (run rivals (record { row = fresh "a"; claimed = []; sent = [] })).sent ≤ 1
one_promotion_example = one_promotion rivals (fresh "a")

refresh-Poll_example :
    Poll (upstream prompt) (at (running "a")) (refresh (upstream prompt) (at (running "a")))
refresh-Poll_example = refresh-Poll (upstream prompt) (at (running "a")) refl

promote-cases_example :
    (promote (upstream silent) (at (fresh "a"))
      ≡ (err component_not_registered, tick (at (fresh "a"))))
    ⊎ Attempted (upstream silent) (promote (upstream silent) (at (fresh "a")))
promote-cases_example = promote-cases (upstream silent) (at (fresh "a")) refl

fresh-IsSound : IsSound (fresh "a")
fresh-IsSound = ground arith

running-IsSound : IsSound (running "a")
running-IsSound = ground arith

refresh-IsSound_example : IsSound (refresh (upstream prompt) (at (running "a"))).deployment
refresh-IsSound_example = refresh-IsSound (upstream prompt) (at (running "a")) refl running-IsSound

promote-IsSound_example : IsSound (promote (upstream silent) (at (fresh "a"))).1.deployment
promote-IsSound_example =
    promote-IsSound (upstream silent) (at (fresh "a")) fresh-IsSound fresh-IsSound

refresh-Quiet_example : Quiet (at (running "a")) (refresh (upstream silent) (at (running "a")))
refresh-Quiet_example = refresh-Quiet (upstream silent) (at (running "a"))
