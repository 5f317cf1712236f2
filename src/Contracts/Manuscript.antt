-- ===== src/Contracts/Manuscript.antt =====
-- Writing packets and manuscripts (packages/contracts/src/phase6.ts).
use georesearch_dsh.Prelude.{Bool, List, String, ℕ}
use georesearch_dsh.Contracts.Json.{Sha256Digest}
use georesearch_dsh.Contracts.Artifact.{ArtifactRef}
use georesearch_dsh.Contracts.Brief.{ResearchBrief}
use georesearch_dsh.Contracts.Run.{RunRecord}
use georesearch_dsh.Contracts.Evidence.{EvidenceRecord, SourceRecord}
use georesearch_dsh.Contracts.Dataset.{Overall}
use georesearch_dsh.Contracts.Experiment.{ExperimentSpec, ResultRecord}
use georesearch_dsh.Contracts.Validation.{ValidationFinding, ValidationReport}
use georesearch_dsh.Contracts.Claim.{ClaimRecord, ManuscriptSectionId}

pub record WritingPacket : Type 0 where
  pub packet_id : String
  pub project_id : String
  pub workspace_id : String
  pub workspace_binding_version : ℕ
  pub research_brief : ResearchBrief
  pub claims : List ClaimRecord
  pub sources : List SourceRecord
  pub evidence : List EvidenceRecord
  pub experiment_specs : List ExperimentSpec
  pub runs : List RunRecord
  pub results : List ResultRecord
  pub validation_reports : List ValidationReport
  pub artifact_refs : List ArtifactRef
  pub limitations : List String
  pub forbidden_claim_ids : List String
  pub built_at : String
  pub digest : Sha256Digest

pub record ManuscriptNumericRef : Type 0 where
  pub literal : String
  pub claim_id : String
  pub result_id : String

pub record ManuscriptBlock : Type 0 where
  pub block_id : String
  pub text : String
  pub claim_ids : List String
  pub evidence_ids : List String
  pub result_ids : List String
  pub numeric_refs : List ManuscriptNumericRef

pub record ManuscriptSection : Type 0 where
  pub section_id : ManuscriptSectionId
  pub title : String
  pub blocks : List ManuscriptBlock

pub record ManuscriptChecks : Type 0 where
  pub packet_current : Bool
  pub claims_eligible : Bool
  pub forbidden_claims_absent : Bool
  pub numbers_traceable : Bool
  pub literature_traceable : Bool
  pub sections_allowed : Bool

pub record ManuscriptAudit : Type 0 where
  pub audit_id : String
  pub project_id : String
  pub manuscript_id : String
  pub packet_id : String
  pub packet_digest : Sha256Digest
  pub checks : ManuscriptChecks
  pub findings : List ValidationFinding
  pub overall : Overall
  pub audited_at : String
  pub digest : Sha256Digest

pub data ManuscriptStatus : Type 0 where
  validated blocked : ManuscriptStatus

pub record ManuscriptRecord : Type 0 where
  pub manuscript_id : String
  pub packet_id : String
  pub packet_digest : Sha256Digest
  pub title : String
  pub sections : List ManuscriptSection
  pub project_id : String
  pub workspace_id : String
  pub workspace_binding_version : ℕ
  pub audit_id : String
  pub status : ManuscriptStatus
  pub created_at : String
  pub digest : Sha256Digest
