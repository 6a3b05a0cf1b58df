-- ===== src/Schedule/Resumption.antt =====
-- `resume_deployments` and `_resume` of app/services/recovery_service.py: the pass over deployments
-- that have been quiet. The rows of the query are the argument: the id of each deployment and of its
-- bundle.
use release_controller.Prelude.{
  ℕ, suc, String, Bool, false, ◌||◌, Option, none, some, List, [], ◌∷◌, ◌++◌, str_eq, length,
  if◌then◌else◌,
}

-- A refresh that is asked of the orchestrator.
pub data Refresh : Type 0 where
  bundle_refresh standalone_refresh : String → Refresh

abbrev pub member : String → List String → Bool
member id [] = false
member id (x ∷ xs) = str_eq x id || member id xs

pub record Targets : Type 0 where
  pub bundle_ids : List String
  pub standalone_ids : List String

unfoldable pub add_bundle : String → Targets → Targets
add_bundle id t =
    if member id t.bundle_ids then t else record t { bundle_ids = t.bundle_ids ++ id ∷ [] }

abbrev pub add_standalone : String → Targets → Targets
add_standalone id t = record t { standalone_ids = t.standalone_ids ++ id ∷ [] }

-- One round of the loop over the pairs; an empty id of a bundle is falsy.
unfoldable pub add_pair : String × Option String → Targets → Targets
add_pair (deployment_id, none) t = add_standalone deployment_id t
add_pair (deployment_id, some bundle_id) t =
    if str_eq bundle_id "" then add_standalone deployment_id t else add_bundle bundle_id t

unfoldable pub split_pairs : List (String × Option String) → Targets → Targets
split_pairs [] t = t
split_pairs (p ∷ ps) t = split_pairs ps (add_pair p t)

-- What was asked of the orchestrator, in order, and how often it answered.
pub record Resumed : Type 0 where
  pub asked : List Refresh
  pub resumed : ℕ

module _ (returns : ℕ → Refresh → Bool) where
  -- `_resume`: an exception counts as nothing, and the next one is tried.
  unfoldable pub resume : Refresh → Resumed → Resumed
  resume refresh r = record {
    asked = r.asked ++ refresh ∷ [];
    resumed = if returns (length r.asked) refresh then suc r.resumed else r.resumed;
  }

  unfoldable pub resume_all : (String → Refresh) → List String → Resumed → Resumed
  resume_all kind [] r = r
  resume_all kind (id ∷ ids) r = resume_all kind ids (resume (kind id) r)

  unfoldable pub resume_deployments : List (String × Option String) → Resumed
  resume_deployments pairs =
      let found = split_pairs pairs (record { bundle_ids = []; standalone_ids = [] }) in
      resume_all standalone_refresh found.standalone_ids
        (resume_all bundle_refresh found.bundle_ids (record { asked = []; resumed = 0 }))
