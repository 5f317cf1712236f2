-- ===== src/Contracts/Experiment.antt =====
-- Experiment specifications and results (packages/contracts/src/phase5.ts).
use georesearch_dsh.Prelude.{List, Option, String, ℕ}
use georesearch_dsh.Dict.{Dict}
use georesearch_dsh.Contracts.Json.{Number, Sha256Digest}
use georesearch_dsh.Contracts.Artifact.{ArtifactRef}

pub record ExperimentBaseline : Type 0 where
  pub baseline_id : String
  pub description : String
  pub implementation_ref : String
  pub preprocessing_policy : String
  pub training_budget : String
  pub postprocessing_policy : String

pub record ExperimentVariable : Type 0 where
  pub name : String
  pub values : List String

pub record ExperimentControl : Type 0 where
  pub name : String
  pub value : String

pub record ExperimentPreprocessingStep : Type 0 where
  pub step_id : String
  pub description : String
  pub applies_to : List String
  pub parameters : Dict String

pub data MetricDirection : Type 0 where
  maximize minimize descriptive : MetricDirection

pub record ExperimentMetric : Type 0 where
  pub metric_id : String
  pub name : String
  pub unit : String
  pub direction : MetricDirection
  pub aggregation : String
  pub implementation_ref : String

pub record ExperimentAblation : Type 0 where
  pub ablation_id : String
  pub description : String
  pub changed_variables : List String

pub record ExperimentStatisticalPlan : Type 0 where
  pub method : String
  pub confidence_level : Number
  pub effect_size : String
  pub multiple_comparison : String
  pub spatial_autocorrelation : String
  pub blocking_strategy : String

pub data DatasetRole : Type 0 where
  training validation testing covariate labels : DatasetRole

pub record ExperimentDatasetRef : Type 0 where
  pub dataset_id : String
  pub dataset_digest : Sha256Digest
  pub role : DatasetRole

pub record ExperimentSpec : Type 0 where
  pub spec_id : String
  pub experiment_id : String
  pub revision : ℕ
  pub project_id : String
  pub workspace_id : String
  pub workspace_binding_version : ℕ
  pub research_brief_digest : Sha256Digest
  pub hypothesis_ids : List String
  pub repository_audit_id : String
  pub repository_audit_digest : Sha256Digest
  pub source_tree_digest : Sha256Digest
  pub datasets : List ExperimentDatasetRef
  pub baselines : List ExperimentBaseline
  pub independent_variables : List ExperimentVariable
  pub control_variables : List ExperimentControl
  pub split_strategy : String
  pub preprocessing : List ExperimentPreprocessingStep
  pub metrics : List ExperimentMetric
  pub seeds : List ℕ
  pub ablations : List ExperimentAblation
  pub statistical_plan : ExperimentStatisticalPlan
  pub stopping_rule : String
  pub resource_requirements : List String
  pub acceptance_criteria : List String
  pub parent_spec_digest : Option Sha256Digest
  pub amendment_ids : List String
  pub protocol_digest : Sha256Digest
  pub frozen_at : String
  pub digest : Sha256Digest

pub record ExperimentAmendment : Type 0 where
  pub amendment_id : String
  pub project_id : String
  pub experiment_id : String
  pub from_spec_id : String
  pub from_spec_digest : Sha256Digest
  pub to_spec_id : String
  pub to_spec_digest : Sha256Digest
  pub changes : List String
  pub reason : String
  pub results_seen_run_ids : List String
  pub created_at : String
  pub digest : Sha256Digest

pub data UncertaintyKind : Type 0 where
  none standard_deviation standard_error confidence_interval : UncertaintyKind

pub record ResultUncertainty : Type 0 where
  pub kind : UncertaintyKind
  pub level : Option Number
  pub lower : Option Number
  pub upper : Option Number

pub record ResultScope : Type 0 where
  pub dataset_id : String
  pub region : String
  pub sensor : String
  pub split : String

pub data ValidationStatus : Type 0 where
  pending passed failed blocked : ValidationStatus

pub record ResultRecord : Type 0 where
  pub result_id : String
  pub metric_id : String
  pub value : Number
  pub unit : String
  pub aggregation : String
  pub uncertainty : ResultUncertainty
  pub comparison_target : Option String
  pub scope : ResultScope
  pub artifact_ids : List String
  pub project_id : String
  pub workspace_id : String
  pub workspace_binding_version : ℕ
  pub experiment_spec_id : String
  pub experiment_spec_digest : Sha256Digest
  pub run_id : String
  pub run_digest : Sha256Digest
  pub dataset_digests : List Sha256Digest
  pub validation_status : ValidationStatus
  pub artifact_refs : List ArtifactRef
  pub committed_at : String
  pub digest : Sha256Digest
