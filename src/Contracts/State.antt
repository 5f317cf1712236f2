-- ===== src/Contracts/State.antt =====
-- The authoritative state of a project and the snapshot that tools see (packages/contracts/src/phase2.ts).
use georesearch_dsh.Prelude.{ℕ, String, Option, List}
use georesearch_dsh.Dict.{Dict}
use georesearch_dsh.Contracts.Json.{Sha256Digest}
use georesearch_dsh.Contracts.Workspace.{ProjectBinding, WorkspaceBinding}
use georesearch_dsh.Contracts.Brief.{ResearchBrief}
use georesearch_dsh.Contracts.Artifact.{ArtifactRecord, ArtifactRef}
use georesearch_dsh.Contracts.Run.{RunRecord}
use georesearch_dsh.Contracts.Evidence.{SourceRecord, EvidenceRecord}
use georesearch_dsh.Contracts.Reproduction.{
  RepositoryAudit, ReproductionPlan, ReproductionTestSpecRecord, ReproductionReport,
}
use georesearch_dsh.Contracts.Dataset.{GeodataInspectionReport, DatasetManifest}
use georesearch_dsh.Contracts.Experiment.{ExperimentSpec, ExperimentAmendment, ResultRecord}
use georesearch_dsh.Contracts.Validation.{ValidationPlan, ValidationReport, ReviewRecord}
use georesearch_dsh.Contracts.Claim.{ClaimRecord}
use georesearch_dsh.Contracts.Manuscript.{WritingPacket, ManuscriptRecord, ManuscriptAudit}

pub record ProjectReducerState : Type 0 where
  pub project_id : String
  pub project_binding : ProjectBinding
  pub workspace_bindings : Dict WorkspaceBinding
  pub research_brief : Option ResearchBrief
  pub artifacts : Dict ArtifactRecord
  pub runs : Dict RunRecord
  pub sources : Option (Dict SourceRecord)
  pub evidence : Option (Dict EvidenceRecord)
  pub repository_audits : Option (Dict RepositoryAudit)
  pub reproduction_plans : Option (Dict ReproductionPlan)
  pub reproduction_test_specs : Option (Dict ReproductionTestSpecRecord)
  pub reproduction_reports : Option (Dict ReproductionReport)
  pub geodata_reports : Option (Dict GeodataInspectionReport)
  pub dataset_manifests : Option (Dict DatasetManifest)
  pub experiment_specs : Option (Dict ExperimentSpec)
  pub experiment_amendments : Option (Dict ExperimentAmendment)
  pub results : Option (Dict ResultRecord)
  pub validation_plans : Option (Dict ValidationPlan)
  pub validation_reports : Option (Dict ValidationReport)
  pub review_records : Option (Dict ReviewRecord)
  pub claims : Option (Dict ClaimRecord)
  pub writing_packets : Option (Dict WritingPacket)
  pub manuscripts : Option (Dict ManuscriptRecord)
  pub manuscript_audits : Option (Dict ManuscriptAudit)
  pub active_task_ids : List String
  pub blockers : List String
  pub stale_indicators : List String

pub record ProjectStateFile : Type 0 where
  pub project_id : String
  pub generation : ℕ
  pub last_event_seq : ℕ
  pub last_event_hash : Option Sha256Digest
  pub state : ProjectReducerState
  pub digest : Sha256Digest

pub data ProjectReadinessDomain : Type 0 where
  scope evidence reproduction protocol implementation runs validation claims manuscript :
      ProjectReadinessDomain

pub data ProjectReadiness : Type 0 where
  missing in_progress ready blocked stale : ProjectReadiness

pub record ProjectSnapshot : Type 0 where
  pub project_id : String
  pub generation : ℕ
  pub state_digest : Sha256Digest
  pub workspace_id : String
  pub readiness : ProjectReadinessDomain → ProjectReadiness
  pub active_task_ids : List String
  pub visible_artifacts : List ArtifactRef
  pub blockers : List String
  pub stale_indicators : List String
