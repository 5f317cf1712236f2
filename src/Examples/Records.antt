-- ===== src/Examples/Records.antt =====
-- One record of each kind, whose references fit.
use Prim.Native.String.{compare}
use text.Mathlib.Text.{is_le}
use georesearch_dsh.Prelude.{true, false, none, some, [], ◌∷◌}
use georesearch_dsh.Contracts.Brief.{ResearchBrief}
use georesearch_dsh.Contracts.Run.{RunKind, RunState, RunRecord, RunSandboxRecord}
use georesearch_dsh.Contracts.Evidence.{
  SourceRecord, EvidenceRecord, EvidenceRelation, IdentifierKind, VersionRelationKind, SourceStatus,
  ReviewStatus,
}
use georesearch_dsh.Contracts.Reproduction.{
  RepositoryAudit, ReproductionPlan, ReproductionScope, ReproductionReport, ReproductionStatus,
}
use georesearch_dsh.Service.Host.{Host}
use georesearch_dsh.Examples.Data.{digest_a, now}

abbrev pub host : Host
host = record {
  canonical_json = λ c. "";
  sha256 = λ t. digest_a;
  to_lower_case = λ t. t;
  locale_le = λ a b. is_le (compare a b);
  is_finite = λ n. true;
  add = λ a b. a;
  subtract = λ a b. a;
  multiply = λ a b. a;
  divide = λ a b. a;
  of_nat = λ n. "1";
}

abbrev pub brief : ResearchBrief
brief = record {
  brief_id = "b1";
  title = "t";
  research_question = "q";
  background = "b";
  motivation = "m";
  region = record { description = "r"; bbox = none; crs = none };
  time_range = record { start = none; end = none };
  research_subjects = [];
  data_modalities = [];
  hypotheses = [];
  expected_contributions = [];
  constraints = [];
  known_assumptions = [];
  success_criteria = [];
  user_confirmation = record { confirmed_at = now; audit_note = "n" };
  digest = digest_a;
  committed_at = now;
}

abbrev pub source : SourceRecord
source = record {
  source_id = "s1";
  title = "t";
  authors = [];
  year = none;
  venue = none;
  stable_identifier = record { kind = IdentifierKind.doi; value = "10.1/1" };
  source_type = "article";
  version_relation = record { kind = VersionRelationKind.none; related_identifier = none };
  retrieved_at = now;
  provider_trace = record {
    provider_id = "p";
    provider_version = "1";
    retrieved_at = now;
    credential_ref = none;
    credential_binding_epoch = 0;
    request_id = none;
  };
  code_refs = [];
  data_refs = [];
  status = SourceStatus.resolved;
  search_chain = record { chain_id = "c"; generation = 1; provider_item_id = "i" };
  digest = digest_a;
}

abbrev pub evidence : EvidenceRecord
evidence = record {
  source_id = "s1";
  artifact_id = "a1";
  paper_read_receipt_id = "r";
  locator = record { page_start = 1; page_end = 1 };
  proposition = "p";
  relation = EvidenceRelation.supports;
  paraphrase = "p";
  quoted_text = none;
  limitations = [];
  evidence_id = "e1";
  artifact_digest = digest_a;
  extraction_lineage = record {
    provider_id = "p";
    provider_version = "1";
    parser_id = "p";
    parser_version = "1";
    config_digest = digest_a;
  };
  review_status = ReviewStatus.accepted;
  committed_at = now;
  digest = digest_a;
}

abbrev pub audit : RepositoryAudit
audit = record {
  audit_id = "u1";
  project_id = "p1";
  workspace_id = "w1";
  workspace_binding_version = 1;
  source_id = "s1";
  source_digest = digest_a;
  repository = record {
    capability = record {
      provider_version = "1";
      max_files = 1;
      max_changes = 1;
      max_hashed_bytes = 1;
    };
    canonical_root = "/w1";
    git_dir = "/w1/.git";
    git_common_dir = "/w1/.git";
    remote_url = none;
    head_commit = some "c";
    branch = none;
    detached = true;
    tags = [];
    target_ref = some "c";
    target_commit = some "c";
    target_matches_head = true;
    dirty = false;
    changes = [];
  };
  source_tree_digest = digest_a;
  languages = [];
  build_systems = [];
  entry_points = [];
  configuration_files = [];
  data_dependency_paths = [];
  environment_files = [];
  test_paths = [];
  method_code_deltas = [];
  blockers = [];
  audited_at = now;
  digest = digest_a;
}

abbrev pub plan : ReproductionPlan
plan = record {
  plan_id = "l1";
  source_id = "s1";
  repository_audit_id = "u1";
  target_repository = record { remote_url = none; commit = "c" };
  target_data = [];
  target_results = [];
  scope = ReproductionScope.exact;
  environment_requirements = [];
  missing_materials = [];
  steps = [];
  expected_outputs = [];
  tolerances = [];
  blockers = [];
  project_id = "p1";
  workspace_id = "w1";
  workspace_binding_version = 1;
  repository_audit_digest = digest_a;
  source_tree_digest = digest_a;
  created_at = now;
  digest = digest_a;
}

abbrev pub run : RunRecord
run = record {
  run_id = "r1";
  kind = RunKind.formal;
  project_id = "p1";
  workspace_id = "w1";
  workspace_binding_version = 1;
  experiment_spec_digest = digest_a;
  source_tree_digest = digest_a;
  environment_digest = digest_a;
  dataset_digests = [];
  seed = none;
  argv = "true" ∷ [];
  argv_digest = digest_a;
  cwd = record { canonical_path = "/w1"; volume_identity = "v"; file_identity = "f" };
  state = RunState.succeeded;
  launch_id = "l1";
  pid = none;
  process_creation_time = none;
  supervisor_receipt_digest = none;
  resource_limits = record {
    timeout_ms = 1000;
    grace_ms = 100;
    stdout_max_bytes = 100;
    stderr_max_bytes = 100;
  };
  stdout_path = "out";
  stderr_path = "err";
  started_at = none;
  ended_at = none;
  exit_code = none;
  sandbox = RunSandboxRecord.danger_full_access;
  approval = none;
  output_artifact_refs = [];
  failure_classification = none;
}

abbrev pub report : ReproductionReport
report = record {
  plan_id = "l1";
  baseline_audit_id = "u1";
  final_audit_id = "u1";
  run_ids = "r1" ∷ [];
  status = ReproductionStatus.exactly_reproduced;
  metric_results = [];
  paper_description = "p";
  official_code_behavior = "o";
  local_implementation_and_environment = "l";
  necessary_modifications = [];
  result_differences = [];
  difference_sources = [];
  unresolved_details = [];
  diagnostics = [];
  limitations = [];
  report_id = "o1";
  project_id = "p1";
  workspace_id = "w1";
  workspace_binding_version = 1;
  plan_digest = digest_a;
  baseline_audit_digest = digest_a;
  final_audit_digest = digest_a;
  report_artifact = record { artifact_id = "a1"; digest = digest_a; kind = "text" };
  review_status = ReviewStatus.pending;
  committed_at = now;
  digest = digest_a;
}
