-- ===== src/Contracts/Reproduction.antt =====
-- Repository audits, reproduction plans and reports (packages/contracts/src/phase4.ts).
use georesearch_dsh.Prelude.{Bool, List, Option, String, ℕ}
use georesearch_dsh.Contracts.Json.{Number, Sha256Digest}
use georesearch_dsh.Contracts.Artifact.{ArtifactRef}
use georesearch_dsh.Contracts.Run.{TestSpec}
use georesearch_dsh.Contracts.Evidence.{ReviewStatus}

pub data MethodCodeDeltaClassification : Type 0 where
  matches partially_matches differs missing_in_code not_described_in_paper unclear :
      MethodCodeDeltaClassification

pub data ReproductionScope : Type 0 where
  exact metric_equivalent functional conceptual partial : ReproductionScope

pub data ReproductionStatus : Type 0 where
  exactly_reproduced metric_equivalent functionally_reproduced conceptually_reproduced
        partially_reproduced blocked_by_missing_data blocked_by_environment failed_with_diagnosis :
      ReproductionStatus

pub record RepositoryProviderCapability : Type 0 where
  pub provider_version : String
  pub max_files : ℕ
  pub max_changes : ℕ
  pub max_hashed_bytes : ℕ

pub record RepositoryChange : Type 0 where
  pub status : String
  pub path : String
  pub digest : Option Sha256Digest
  pub size : Option ℕ

pub record RepositoryLanguageSummary : Type 0 where
  pub language : String
  pub file_count : ℕ

pub record RepositoryBuildSystem : Type 0 where
  pub name : String
  pub manifest_paths : List String

pub record RepositoryCodeLocator : Type 0 where
  pub path : String
  pub line_start : ℕ
  pub line_end : ℕ
  pub file_digest : Sha256Digest
  pub line_digest : Sha256Digest

pub record MethodCodeDelta : Type 0 where
  pub delta_id : String
  pub evidence_id : String
  pub paper_statement : String
  pub classification : MethodCodeDeltaClassification
  pub code_locator : Option RepositoryCodeLocator
  pub summary : String
  pub likely_impact : String
  pub limitations : List String

pub record ReproductionBlocker : Type 0 where
  pub code : String
  pub message : String
  pub retryable : Bool

pub record AuditedRepository : Type 0 where
  pub capability : RepositoryProviderCapability
  pub canonical_root : String
  pub git_dir : String
  pub git_common_dir : String
  pub remote_url : Option String
  pub head_commit : Option String
  pub branch : Option String
  pub detached : Bool
  pub tags : List String
  pub target_ref : Option String
  pub target_commit : Option String
  pub target_matches_head : Bool
  pub dirty : Bool
  pub changes : List RepositoryChange

pub record RepositoryAudit : Type 0 where
  pub audit_id : String
  pub project_id : String
  pub workspace_id : String
  pub workspace_binding_version : ℕ
  pub source_id : String
  pub source_digest : Sha256Digest
  pub repository : AuditedRepository
  pub source_tree_digest : Sha256Digest
  pub languages : List RepositoryLanguageSummary
  pub build_systems : List RepositoryBuildSystem
  pub entry_points : List String
  pub configuration_files : List String
  pub data_dependency_paths : List String
  pub environment_files : List String
  pub test_paths : List String
  pub method_code_deltas : List MethodCodeDelta
  pub blockers : List ReproductionBlocker
  pub audited_at : String
  pub digest : Sha256Digest

pub record ReproductionTargetResult : Type 0 where
  pub result_id : String
  pub description : String
  pub metric : String
  pub expected_value : Option String
  pub unit : Option String
  pub evidence_id : Option String

pub record ReproductionTolerance : Type 0 where
  pub result_id : String
  pub absolute : Option Number
  pub relative : Option Number

pub data PlanStepKind : Type 0 where
  inspect modify test formal_run compare : PlanStepKind

pub record ReproductionPlanStep : Type 0 where
  pub step_id : String
  pub kind : PlanStepKind
  pub description : String
  pub expected_outputs : List String

pub record TargetRepository : Type 0 where
  pub remote_url : Option String
  pub commit : String

pub record ReproductionPlan : Type 0 where
  pub plan_id : String
  pub source_id : String
  pub repository_audit_id : String
  pub target_repository : TargetRepository
  pub target_data : List String
  pub target_results : List ReproductionTargetResult
  pub scope : ReproductionScope
  pub environment_requirements : List String
  pub missing_materials : List String
  pub steps : List ReproductionPlanStep
  pub expected_outputs : List String
  pub tolerances : List ReproductionTolerance
  pub blockers : List ReproductionBlocker
  pub project_id : String
  pub workspace_id : String
  pub workspace_binding_version : ℕ
  pub repository_audit_digest : Sha256Digest
  pub source_tree_digest : Sha256Digest
  pub created_at : String
  pub digest : Sha256Digest

pub record ReproductionTestSpecRecord : Type 0 where
  pub project_id : String
  pub workspace_id : String
  pub workspace_binding_version : ℕ
  pub plan_id : String
  pub repository_audit_id : String
  pub source_tree_digest : Sha256Digest
  pub spec : TestSpec
  pub spec_digest : Sha256Digest
  pub registered_at : String
  pub digest : Sha256Digest

pub data MetricComparison : Type 0 where
  match within_tolerance different unavailable : MetricComparison

pub record ReproductionMetricResult : Type 0 where
  pub result_id : String
  pub expected_value : Option String
  pub observed_value : Option String
  pub unit : Option String
  pub comparison : MetricComparison

pub record ReproductionModification : Type 0 where
  pub path : String
  pub description : String
  pub reason : String

pub record ReproductionDiagnosis : Type 0 where
  pub code : String
  pub message : String
  pub related_run_ids : List String
  pub related_artifact_ids : List String

pub record ReproductionReportCandidate : Type 0 where
  pub plan_id : String
  pub baseline_audit_id : String
  pub final_audit_id : String
  pub run_ids : List String
  pub status : ReproductionStatus
  pub metric_results : List ReproductionMetricResult
  pub paper_description : String
  pub official_code_behavior : String
  pub local_implementation_and_environment : String
  pub necessary_modifications : List ReproductionModification
  pub result_differences : List String
  pub difference_sources : List String
  pub unresolved_details : List String
  pub diagnostics : List ReproductionDiagnosis
  pub limitations : List String

pub record ReproductionReport : Type 0 where
  pub plan_id : String
  pub baseline_audit_id : String
  pub final_audit_id : String
  pub run_ids : List String
  pub status : ReproductionStatus
  pub metric_results : List ReproductionMetricResult
  pub paper_description : String
  pub official_code_behavior : String
  pub local_implementation_and_environment : String
  pub necessary_modifications : List ReproductionModification
  pub result_differences : List String
  pub difference_sources : List String
  pub unresolved_details : List String
  pub diagnostics : List ReproductionDiagnosis
  pub limitations : List String
  pub report_id : String
  pub project_id : String
  pub workspace_id : String
  pub workspace_binding_version : ℕ
  pub plan_digest : Sha256Digest
  pub baseline_audit_digest : Sha256Digest
  pub final_audit_digest : Sha256Digest
  pub report_artifact : ArtifactRef
  pub review_status : ReviewStatus
  pub committed_at : String
  pub digest : Sha256Digest
