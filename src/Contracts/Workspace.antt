-- ===== src/Contracts/Workspace.antt =====
-- Workspace and project bindings (packages/contracts/src/phase2.ts).
use georesearch_dsh.Prelude.{List, Option, String, ℕ}

pub record FileIdentity : Type 0 where
  pub volume_identity : String
  pub file_identity : String

pub record CanonicalPathIdentity : Type 0 where
  pub volume_identity : String
  pub file_identity : String
  pub canonical_path : String

pub record WorkspaceBinding : Type 0 where
  pub binding_version : ℕ
  pub workspace_id : String
  pub project_id : String
  pub canonical_path : String
  pub volume_identity : String
  pub directory_file_identity : String
  pub git_common_dir_identity : Option FileIdentity
  pub git_worktree_identity : Option FileIdentity
  pub attached_at : String
  pub verified_at : String

pub record ProjectBinding : Type 0 where
  pub project_id : String
  pub binding_id : String
  pub workspace_ids : List String
  pub created_at : String
  pub updated_at : String
