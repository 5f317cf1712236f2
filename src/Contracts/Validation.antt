-- ===== src/Contracts/Validation.antt =====
-- Validation plans and reports, and reviews (packages/contracts/src/phase6.ts).
use georesearch_dsh.Prelude.{Bool, List, String, ℕ}
use georesearch_dsh.Contracts.Json.{Sha256Digest}
use georesearch_dsh.Contracts.Dataset.{Overall}

pub data ValidationSubjectKind : Type 0 where
  geodata_report dataset_manifest experiment_spec run result evidence reproduction_report claim
        research_brief manuscript :
      ValidationSubjectKind

pub record ValidationSubjectRef : Type 0 where
  pub kind : ValidationSubjectKind
  pub subject_id : String
  pub digest : Sha256Digest

pub record ValidationValidatorSpec : Type 0 where
  pub validator_id : String
  pub version : String
  pub mandatory : Bool
  pub config_digest : Sha256Digest

pub data Severity : Type 0 where
  info warning error hard : Severity

pub record ValidationFinding : Type 0 where
  pub finding_id : String
  pub validator_id : String
  pub severity : Severity
  pub code : String
  pub message : String
  pub subject_ids : List String

pub data ValidationDomain : Type 0 where
  geodata experiment citation manuscript : ValidationDomain

pub record ValidationPlan : Type 0 where
  pub plan_id : String
  pub project_id : String
  pub workspace_id : String
  pub workspace_binding_version : ℕ
  pub domain : ValidationDomain
  pub subjects : List ValidationSubjectRef
  pub validators : List ValidationValidatorSpec
  pub policy_digest : Sha256Digest
  pub created_at : String
  pub digest : Sha256Digest

pub data ValidatorStatus : Type 0 where
  passed failed blocked error not_applicable : ValidatorStatus

pub record ValidationValidatorResult : Type 0 where
  pub validator_id : String
  pub version : String
  pub mandatory : Bool
  pub config_digest : Sha256Digest
  pub status : ValidatorStatus
  pub findings : List ValidationFinding

pub record ValidationReport : Type 0 where
  pub report_id : String
  pub project_id : String
  pub workspace_id : String
  pub workspace_binding_version : ℕ
  pub plan_id : String
  pub plan_digest : Sha256Digest
  pub subjects : List ValidationSubjectRef
  pub validator_results : List ValidationValidatorResult
  pub overall : Overall
  pub completed_at : String
  pub digest : Sha256Digest

pub data Recommendation : Type 0 where
  accept revise reject : Recommendation

pub record ReviewRecord : Type 0 where
  pub review_id : String
  pub subject_refs : List ValidationSubjectRef
  pub validation_report_ids : List String
  pub findings : List ValidationFinding
  pub recommendation : Recommendation
  pub supersedes_review_ids : List String
  pub project_id : String
  pub workspace_id : String
  pub workspace_binding_version : ℕ
  pub created_at : String
  pub digest : Sha256Digest
