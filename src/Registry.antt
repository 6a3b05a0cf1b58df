-- ===== src/Registry.antt =====
-- The registry rows that the orchestration reads (app/db/models/registry.py).
pub mod Project
pub mod Changes
pub mod Order
pub mod Edits
pub mod Undo
mod Examples
use release_controller.Prelude.{ℕ, String, Bool, Option}

-- A row of project_components.
pub record ProjectComponent : Type 0 where
  pub id : String
  pub project_id : String
  pub key : String
  pub display_name : String
  pub position : ℕ
  pub promote_target_override : Option String
  pub drone_connection_id : Option String
  pub drone_owner : String
  pub drone_repo : String
  pub publish_enabled : Bool
  pub gitea_connection_id : Option String
  pub gitea_owner : Option String
  pub gitea_repo : Option String
  pub tag_prefix : String
  pub is_active : Bool
  pub created_at : ℕ
  pub updated_at : ℕ
