-- ===== src/Creation/Refusal.antt =====
-- When a deployment on its own is refused as a duplicate (app/services/release_orchestrator.py:
-- `prepare_standalone`; app/services/deployment_service.py: `assert_not_duplicate`, `create`).
use release_controller.Prelude.{
  ℕ, suc, String, ◌≡◌, refl, ◌≢◌, ◌⊎◌, inl, inr, Option, none, some, List, [], ◌∷◌, ◌++◌, str_eq,
  eq_iff, Bool-cases, ok, err,
}
use release_controller.Workflow.{DeploymentStatus, waiting, validate_stage, deployment_value}
use release_controller.Registry.{ProjectComponent}
use release_controller.Drone.{DroneBuild}
use release_controller.Drone.Builds.{repository_of}
use release_controller.Deployment.{Deployment, Upstream}
use release_controller.Deployment.Slots.{
  Slot, IsIn, Taken, Free, is_taken, is_taken-Taken, is_taken-Free,
}
use release_controller.Creation.{ProjectRow, Connection, duplicate_promotion, Site, Draft}
use release_controller.Creation.Lookup.{drone_connection}
use release_controller.Creation.Insert.{
  assert_not_duplicate, insert_row, flush, create, new_deployment,
}
use release_controller.Creation.Bundle.{note_stage, prepare_standalone}

-- The promotion that is asked for.
abbrev pub wanted : Connection → ProjectComponent → DroneBuild → String → Slot
wanted connection c build target = record {
  drone_connection_id = connection.id;
  drone_owner = c.drone_owner;
  drone_repository = c.drone_repo;
  source_build_number = build.number;
  target = target;
}

-- The new deployment waits in a slot that was free in both tables, and stands behind the others.
pub record Added (slot : Slot) (rows others : List Deployment) (made : Deployment × Draft)
    : Type 0 where
  pub free_at_check : Free slot rows
  pub free_at_insert : Free slot others
  pub waits : made.0.status ≡ waiting
  pub inside : IsIn slot made.0
  pub behind : made.1.rows ≡ others ++ made.0 ∷ []

repository_of-configured :
    (c : ProjectComponent)
    → c.drone_owner ≢ ""
    → c.drone_repo ≢ ""
    → repository_of c ≡ ok (c.drone_owner, c.drone_repo)
unfolding repository_of
repository_of-configured c o r = elim (Bool-cases (str_eq c.drone_owner "")) [
  | inl e ↦ absurd (o ((eq_iff c.drone_owner "").0 e))
  | inr e ↦ elim (Bool-cases (str_eq c.drone_repo "")) [
    | inl e' ↦ absurd (r ((eq_iff c.drone_repo "").0 e'))
    | inr e' ↦ rw e (rw e' refl)
  ]
]

module _ (u : Upstream) (site : Site) where
  -- The deployment and the draft that `prepare_standalone` returns for the connection.
  abbrev made_for :
      ProjectRow
      → ProjectComponent
      → DroneBuild
      → String
      → Option String
      → ℕ
      → List Deployment
      → Connection
      → Deployment × Draft
  made_for project c build target requested_by k rows connection =
      let d =
        new_deployment u site k connection (c.drone_owner, c.drone_repo)
          (record {
            component = c;
            build = build;
            target = target;
            bundle = none;
            requested_by = requested_by;
          }) in
      (
        d,
        note_stage u site none (some d) (validate_stage c.key)
            (some (deployment_value DeploymentStatus.waiting))
            (record {
              rows = site.others rows ++ d ∷ [];
              made = d ∷ [];
              events = [];
              ticks = suc (suc k);
            }),
      )

  -- If the connection of a component is found and its repository is configured, a deployment of it on
  -- its own is refused as a duplicate only if an active deployment of the same connection, repository,
  -- build and target is in the table at the check or at the INSERT; otherwise there is none in either,
  -- and a waiting deployment with these five values is added behind the others.
  pub prepare_standalone-Decides :
      (project : ProjectRow) (c : ProjectComponent) (build : DroneBuild) (target : String)
      (requested_by : Option String) (k : ℕ) (rows : List Deployment) (connection : Connection)
      → drone_connection site.connections project c ≡ ok connection
      → c.drone_owner ≢ ""
      → c.drone_repo ≢ ""
      → ((prepare_standalone u site project c build target requested_by k rows
            ≡ err duplicate_promotion)
          × (Taken (wanted connection c build target) rows
              ⊎ Taken (wanted connection c build target) (site.others rows)))
        ⊎ ((made : Deployment × Draft) × (prepare_standalone u site project c build target
                requested_by k rows
              ≡ ok made)
            × Added (wanted connection c build target) rows (site.others rows) made)
  unfolding prepare_standalone assert_not_duplicate create flush insert_row new_deployment
      note_stage
  prepare_standalone-Decides project c build target requested_by k rows connection found o r =
      let slot = wanted connection c build target in
      let repo = repository_of-configured c o r in
      elim (Bool-cases (is_taken slot rows)) [
        | inl e ↦ inl (rw found (rw e refl), inl (is_taken-Taken slot rows e))
        | inr e ↦ elim (Bool-cases (is_taken slot (site.others rows))) [
          | inl e' ↦ inl (rw found (rw e (rw repo (rw e' refl))), inr (is_taken-Taken slot _ e'))
          | inr e' ↦ inr (
            made_for project c build target requested_by k rows connection,
            rw found (rw e (rw repo (rw e' refl))),
            record {
              free_at_check = is_taken-Free slot rows e;
              free_at_insert = is_taken-Free slot _ e';
              waits = refl;
              inside = (refl, refl, refl, refl, refl);
              behind = refl;
            },
          )
        ]
      ]
