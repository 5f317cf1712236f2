-- ===== src/Examples/Findings.antt =====
-- An experiment spec and the records that follow from it.
use georesearch_dsh.Prelude.{none, [], ◌∷◌}
use georesearch_dsh.Contracts.Experiment.{
  ExperimentSpec, ResultRecord, UncertaintyKind, ValidationStatus,
}
use georesearch_dsh.Contracts.Dataset.{Overall}
use georesearch_dsh.Contracts.Validation.{
  ValidationPlan, ValidationDomain, ValidationReport, ValidationSubjectKind,
}
use georesearch_dsh.Contracts.Claim.{
  ClaimRecord, ClaimType, ClaimSupportState, SupportKind, ApprovalState, ApprovalOutcome,
  ApprovalSource, ClaimIntegrity, ClaimValidity, ManuscriptSectionId,
}
use georesearch_dsh.Contracts.Manuscript.{WritingPacket}
use georesearch_dsh.Examples.Data.{digest_a, now}
use georesearch_dsh.Examples.Records.{brief, source, evidence, run}

abbrev pub spec : ExperimentSpec
spec = record {
  spec_id = "x1";
  experiment_id = "x";
  revision = 1;
  project_id = "p1";
  workspace_id = "w1";
  workspace_binding_version = 1;
  research_brief_digest = digest_a;
  hypothesis_ids = [];
  repository_audit_id = "u1";
  repository_audit_digest = digest_a;
  source_tree_digest = digest_a;
  datasets = [];
  baselines = [];
  independent_variables = [];
  control_variables = [];
  split_strategy = "s";
  preprocessing = [];
  metrics = [];
  seeds = [];
  ablations = [];
  statistical_plan = record {
    method = "m";
    confidence_level = "0.95";
    effect_size = "e";
    multiple_comparison = "m";
    spatial_autocorrelation = "s";
    blocking_strategy = "b";
  };
  stopping_rule = "s";
  resource_requirements = [];
  acceptance_criteria = [];
  parent_spec_digest = none;
  amendment_ids = [];
  protocol_digest = digest_a;
  frozen_at = now;
  digest = digest_a;
}

abbrev pub result : ResultRecord
result = record {
  result_id = "t1";
  metric_id = "m";
  value = "1";
  unit = "u";
  aggregation = "a";
  uncertainty = record { kind = UncertaintyKind.none; level = none; lower = none; upper = none };
  comparison_target = none;
  scope = record { dataset_id = "d"; region = "r"; sensor = "s"; split = "t" };
  artifact_ids = [];
  project_id = "p1";
  workspace_id = "w1";
  workspace_binding_version = 1;
  experiment_spec_id = "x1";
  experiment_spec_digest = digest_a;
  run_id = "r1";
  run_digest = digest_a;
  dataset_digests = [];
  validation_status = ValidationStatus.passed;
  artifact_refs = [];
  committed_at = now;
  digest = digest_a;
}

abbrev pub validation_report : ValidationReport
validation_report = record {
  report_id = "v1";
  project_id = "p1";
  workspace_id = "w1";
  workspace_binding_version = 1;
  plan_id = "n1";
  plan_digest = digest_a;
  subjects =
      record { kind = ValidationSubjectKind.result; subject_id = "t1"; digest = digest_a } ∷ [];
  validator_results = [];
  overall = Overall.passed;
  completed_at = now;
  digest = digest_a;
}

abbrev pub validation_plan : ValidationPlan
validation_plan = record {
  plan_id = "n1";
  project_id = "p1";
  workspace_id = "w1";
  workspace_binding_version = 1;
  domain = ValidationDomain.experiment;
  subjects =
      record { kind = ValidationSubjectKind.result; subject_id = "t1"; digest = digest_a } ∷ [];
  validators = [];
  policy_digest = digest_a;
  created_at = now;
  digest = digest_a;
}

-- An observation that rests on the result.
abbrev pub claim : ClaimRecord
claim = record {
  claim_id = "c1";
  statement = "s";
  claim_type = ClaimType.experimental_observation;
  support_refs =
      record { kind = SupportKind.result; record_id = "t1"; digest = digest_a }
      ∷ record { kind = SupportKind.evidence; record_id = "e1"; digest = digest_a }
      ∷ [];
  limitations = [];
  intended_sections = ManuscriptSectionId.results ∷ [];
  validation_report_ids = "v1" ∷ [];
  review_record_ids = [];
  project_id = "p1";
  workspace_id = "w1";
  workspace_binding_version = 1;
  calculation = none;
  support_state = ClaimSupportState.experiment_supported;
  approval_state = ApprovalState.approved;
  integrity = ClaimIntegrity.verified;
  validity = ClaimValidity.current;
  approval = record {
    requested = ApprovalState.approved;
    outcome = ApprovalOutcome.approved;
    source = ApprovalSource.user;
    call_id = "c";
    decided_at = now;
  };
  committed_at = now;
  digest = digest_a;
}

abbrev pub packet : WritingPacket
packet = record {
  packet_id = "k1";
  project_id = "p1";
  workspace_id = "w1";
  workspace_binding_version = 1;
  research_brief = brief;
  claims = claim ∷ [];
  sources = source ∷ [];
  evidence = evidence ∷ [];
  experiment_specs = spec ∷ [];
  runs = run ∷ [];
  results = result ∷ [];
  validation_reports = validation_report ∷ [];
  artifact_refs = [];
  limitations = [];
  forbidden_claim_ids = [];
  built_at = now;
  digest = digest_a;
}
