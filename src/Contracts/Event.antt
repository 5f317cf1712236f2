-- ===== src/Contracts/Event.antt =====
-- The events of a project (packages/contracts/src/phase2.ts, packages/project-provider-files/src/reducer.ts).
-- An event's type and its data are one value here, a constructor for each type; the code reads the
-- data at the shape that the type announces. `unsupported` is every other type.
use georesearch_dsh.Prelude.{ℕ, String, Option, List}
use georesearch_dsh.Contracts.Json.{Json, Sha256Digest}
use georesearch_dsh.Contracts.Workspace.{ProjectBinding, WorkspaceBinding}
use georesearch_dsh.Contracts.Brief.{ResearchBrief}
use georesearch_dsh.Contracts.Artifact.{ArtifactRecord}
use georesearch_dsh.Contracts.Run.{RunRecord}
use georesearch_dsh.Contracts.Evidence.{SourceRecord, EvidenceRecord}
use georesearch_dsh.Contracts.Reproduction.{
  RepositoryAudit, ReproductionPlan, ReproductionTestSpecRecord, ReproductionReport,
}
use georesearch_dsh.Contracts.Dataset.{GeodataInspectionReport, DatasetManifest}
use georesearch_dsh.Contracts.Experiment.{ExperimentSpec, ExperimentAmendment, ResultRecord}
use georesearch_dsh.Contracts.Validation.{ValidationPlan, ValidationReport, ReviewRecord}
use georesearch_dsh.Contracts.Claim.{ClaimRecord}
use georesearch_dsh.Contracts.Manuscript.{WritingPacket, ManuscriptRecord, ManuscriptAudit}

-- `artifact_upload_rolled_back` has the artifact's id, then the attachment's id, the digest and the
-- workspace's id, which the reducer does not read.
pub data ProjectEventData : Type 0 where
  project_created : ProjectBinding → WorkspaceBinding → ProjectEventData
  workspace_attached workspace_rebound : WorkspaceBinding → ProjectEventData
  research_brief_committed : ResearchBrief → ProjectEventData
  artifact_committed deliverable_published : ArtifactRecord → ProjectEventData
  artifacts_staled : List String → List String → ProjectEventData
  artifact_upload_rolled_back : String → String → String → String → ProjectEventData
  run_recorded run_updated : RunRecord → ProjectEventData
  source_recorded : SourceRecord → ProjectEventData
  evidence_recorded : EvidenceRecord → ProjectEventData
  repository_audit_recorded : RepositoryAudit → ProjectEventData
  reproduction_plan_recorded : ReproductionPlan → ProjectEventData
  reproduction_test_spec_recorded : ReproductionTestSpecRecord → ProjectEventData
  reproduction_report_recorded : ReproductionReport → ProjectEventData
  experiment_spec_committed :
      List GeodataInspectionReport
      → List DatasetManifest
      → ExperimentSpec
      → Option ExperimentAmendment
      → ProjectEventData
  result_records_committed : RunRecord → List ResultRecord → ProjectEventData
  validation_completed : ValidationPlan → ValidationReport → ProjectEventData
  review_recorded : ReviewRecord → ProjectEventData
  claim_recorded : ClaimRecord → ProjectEventData
  writing_packet_recorded : WritingPacket → ProjectEventData
  manuscript_audited : ManuscriptRecord → ManuscriptAudit → ProjectEventData
  project_blockers_updated : List String → ProjectEventData
  unsupported : String → Json → ProjectEventData

-- What the hash of an event is taken over.
pub record ProjectEventBody : Type 0 where
  pub event_schema_version : ℕ
  pub reducer_version : ℕ
  pub seq : ℕ
  pub time : String
  pub operation_key : Sha256Digest
  pub request_digest : Sha256Digest
  pub content : ProjectEventData
  pub previous_hash : Option Sha256Digest

pub record ProjectEvent : Type 0 where
  pub body : ProjectEventBody
  pub open body use *
  pub hash : Sha256Digest
