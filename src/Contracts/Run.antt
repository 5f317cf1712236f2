-- ===== src/Contracts/Run.antt =====
-- Runs of experiments and tests, and what their supervisor leaves on disk (packages/contracts/src/phase2.ts).
-- `exitCode` is the one number that may be negative.
use georesearch_dsh.Prelude.{Bool, List, Option, String, ℕ, ℤ}
use georesearch_dsh.Dict.{Dict}
use georesearch_dsh.Contracts.Json.{Sha256Digest}
use georesearch_dsh.Contracts.Workspace.{CanonicalPathIdentity}
use georesearch_dsh.Contracts.Artifact.{ArtifactRef}

pub data RunKind : Type 0 where
  local_test formal : RunKind

pub data RunState : Type 0 where
  starting running collecting succeeded failed cancelled recovery_required : RunState

pub data ConfinedMode : Type 0 where
  read_only workspace_write : ConfinedMode

pub data Enforcement : Type 0 where
  full partial : Enforcement

pub record RunFailureClassification : Type 0 where
  pub code : String
  pub message : String
  pub retryable : Bool

pub record RunApprovalAudit : Type 0 where
  pub call_id : String
  pub approved_at : String

pub record RunResourceLimits : Type 0 where
  pub timeout_ms : ℕ
  pub grace_ms : ℕ
  pub stdout_max_bytes : ℕ
  pub stderr_max_bytes : ℕ

pub data RunSandboxRecord : Type 0 where
  confined : ConfinedMode → Enforcement → RunSandboxRecord
  danger_full_access : RunSandboxRecord

pub record RunRecord : Type 0 where
  pub run_id : String
  pub kind : RunKind
  pub project_id : String
  pub workspace_id : String
  pub workspace_binding_version : ℕ
  pub experiment_spec_digest : Sha256Digest
  pub source_tree_digest : Sha256Digest
  pub environment_digest : Sha256Digest
  pub dataset_digests : List Sha256Digest
  pub seed : Option ℕ
  pub argv : List String
  pub argv_digest : Sha256Digest
  pub cwd : CanonicalPathIdentity
  pub state : RunState
  pub launch_id : String
  pub pid : Option ℕ
  pub process_creation_time : Option String
  pub supervisor_receipt_digest : Option Sha256Digest
  pub resource_limits : RunResourceLimits
  pub stdout_path : String
  pub stderr_path : String
  pub started_at : Option String
  pub ended_at : Option String
  pub exit_code : Option (Option ℤ)
  pub sandbox : RunSandboxRecord
  pub approval : Option RunApprovalAudit
  pub output_artifact_refs : List ArtifactRef
  pub failure_classification : Option RunFailureClassification

pub data TerminationReason : Type 0 where
  cancelled timeout : TerminationReason

pub record RunLaunchReceipt : Type 0 where
  pub project_id : String
  pub run_id : String
  pub launch_id : String
  pub pid : ℕ
  pub process_creation_time : String
  pub stdout_path : String
  pub stderr_path : String
  pub created_at : String
  pub digest : Sha256Digest

pub record RunExitMarker : Type 0 where
  pub project_id : String
  pub run_id : String
  pub launch_id : String
  pub exit_code : Option ℤ
  pub signal : Option String
  pub ended_at : String
  pub stdout_digest : Sha256Digest
  pub stderr_digest : Sha256Digest
  pub termination_reason : Option TerminationReason

pub data TestRunnerKind : Type 0 where
  package_script pytest vitest jest tsc eslint ruff mypy smoke : TestRunnerKind

pub record TestSpec : Type 0 where
  pub test_spec_id : String
  pub runner : TestRunnerKind
  pub argv : List String
  pub cwd_relative : String
  pub timeout_ms : ℕ
  pub grace_ms : ℕ
  pub environment : Dict String
