-- ===== src/Service/Outcomes.antt =====
-- packages/contracts/src/phase4.ts: `reproductionReportOutcomeViolation`, the outcomes that a
-- reproduction report may claim.
use georesearch_dsh.Prelude.{
  Bool, true, false, ◌&&◌, ◌||◌, not, Option, none, some, List, [], ◌==◌, nat_eq, any, is_empty,
  if◌then◌else◌,
}
use georesearch_dsh.Dict.{Dict, get}
use georesearch_dsh.Contracts.Run.{RunRecord, RunKind, RunState}
use georesearch_dsh.Contracts.Reproduction.{
  RepositoryAudit, ReproductionPlan, ReproductionScope, ReproductionStatus, ReproductionReport,
  ReproductionTargetResult, ReproductionMetricResult, ReproductionTestSpecRecord, MetricComparison,
}
use georesearch_dsh.Reducer.Maps.{put_all}
use georesearch_dsh.Service.Guards.{same_nullable}

-- The codes of a violation.
pub data Violation : Type 0 where
  report_invalid baseline_modified : Violation

abbrev pub is_blocked : ReproductionStatus → Bool
is_blocked ReproductionStatus.blocked_by_missing_data = true
is_blocked ReproductionStatus.blocked_by_environment = true
is_blocked _ = false

abbrev pub is_failure : ReproductionStatus → Bool
is_failure ReproductionStatus.failed_with_diagnosis = true
is_failure _ = false

abbrev pub is_reproduced : ReproductionStatus → Bool
is_reproduced status = not (is_blocked status) && not (is_failure status)

abbrev pub is_exactly : ReproductionStatus → Bool
is_exactly ReproductionStatus.exactly_reproduced = true
is_exactly _ = false

abbrev pub is_equivalent : ReproductionStatus → Bool
is_equivalent ReproductionStatus.metric_equivalent = true
is_equivalent _ = false

-- `allowedSuccess[scope].includes(status)`
unfoldable pub allowed_success : ReproductionScope → ReproductionStatus → Bool
allowed_success scope ReproductionStatus.partially_reproduced = true
allowed_success ReproductionScope.exact ReproductionStatus.exactly_reproduced = true
allowed_success ReproductionScope.exact ReproductionStatus.metric_equivalent = true
allowed_success ReproductionScope.exact ReproductionStatus.functionally_reproduced = true
allowed_success ReproductionScope.exact ReproductionStatus.conceptually_reproduced = true
allowed_success ReproductionScope.metric_equivalent ReproductionStatus.metric_equivalent = true
allowed_success ReproductionScope.metric_equivalent ReproductionStatus.functionally_reproduced =
    true
allowed_success ReproductionScope.metric_equivalent ReproductionStatus.conceptually_reproduced =
    true
allowed_success ReproductionScope.functional ReproductionStatus.functionally_reproduced = true
allowed_success ReproductionScope.functional ReproductionStatus.conceptually_reproduced = true
allowed_success ReproductionScope.conceptual ReproductionStatus.conceptually_reproduced = true
allowed_success _ _ = false

abbrev pub changes_target : ReproductionMetricResult → Option ReproductionTargetResult → Bool
changes_target result none = true
changes_target result (some target) =
    not (same_nullable result.expected_value target.expected_value)
    || not (same_nullable result.unit target.unit)

-- `new Map(plan.targetResults.map(result => [result.resultId, result]))`
unfoldable pub targets : ReproductionPlan → Dict ReproductionTargetResult
targets plan = put_all (λ r. r.result_id) [] plan.target_results

abbrev pub is_succeeded : RunState → Bool
is_succeeded RunState.succeeded = true
is_succeeded _ = false

abbrev pub is_lost : RunState → Bool
is_lost RunState.failed = true
is_lost RunState.cancelled = true
is_lost RunState.recovery_required = true
is_lost _ = false

abbrev is_match : MetricComparison → Bool
is_match MetricComparison.match = true
is_match MetricComparison.within_tolerance = true
is_match _ = false

abbrev is_grounded :
    ReproductionReport → ReproductionPlan → RepositoryAudit → RepositoryAudit → Bool
is_grounded report plan baseline final =
    not (is_empty plan.missing_materials)
    || not (is_empty plan.blockers)
    || not (is_empty baseline.blockers)
    || not (is_empty final.blockers)
    || any (λ d. not (is_empty d.related_run_ids) || not (is_empty d.related_artifact_ids))
        report.diagnostics

abbrev pub run_on_tree : RunRecord → ReproductionPlan → RepositoryAudit → Bool
run_on_tree run plan final =
    run.workspace_id == plan.workspace_id
    && nat_eq run.workspace_binding_version plan.workspace_binding_version
    && run.source_tree_digest == final.source_tree_digest

-- A local test is bound by a test spec of the final audit, a formal run by the plan.
abbrev pub run_has_spec :
    RunRecord → ReproductionPlan → RepositoryAudit → List ReproductionTestSpecRecord → Bool
run_has_spec run plan final test_specs = elim run.kind [
  | RunKind.local_test ↦
      any
        (λ t.
          t.plan_id == plan.plan_id
          && t.repository_audit_id == final.audit_id
          && t.source_tree_digest == final.source_tree_digest
          && t.spec_digest == run.experiment_spec_digest)
        test_specs
  | RunKind.formal ↦ run.experiment_spec_digest == plan.digest
]

module _ (report : ReproductionReport) (plan : ReproductionPlan) (baseline final : RepositoryAudit)
    (runs : List RunRecord) (test_specs : List ReproductionTestSpecRecord) where
  -- Nothing if the report may claim its outcome. Of a violation only the code is kept.
  unfoldable pub outcome_violation : Option Violation
  outcome_violation =
      if is_reproduced report.status && not (allowed_success plan.scope report.status)
      then some Violation.report_invalid
      else if any (λ r. changes_target r (get (targets plan) r.result_id)) report.metric_results
      then some Violation.report_invalid
      else if is_reproduced report.status && not (any (λ run. is_succeeded run.state) runs)
      then some Violation.report_invalid
      else if is_failure report.status
          && (is_empty report.diagnostics || not (any (λ run. is_lost run.state) runs))
      then some Violation.report_invalid
      else if is_blocked report.status && is_empty report.diagnostics
      then some Violation.report_invalid
      else if is_blocked report.status && not (is_grounded report plan baseline final)
      then some Violation.report_invalid
      else if not (is_empty report.necessary_modifications)
          && baseline.source_tree_digest == final.source_tree_digest
      then some Violation.report_invalid
      else if is_exactly report.status
          && (not (baseline.source_tree_digest == final.source_tree_digest)
              || final.repository.dirty
              || not (is_empty report.necessary_modifications))
      then some Violation.baseline_modified
      else if is_equivalent report.status
          && not (any (λ r. is_match r.comparison) report.metric_results)
      then some Violation.report_invalid
      else if any
          (λ run.
            not (run.project_id == plan.project_id && run_on_tree run plan final)
            || not (run_has_spec run plan final test_specs))
          runs
      then some Violation.report_invalid
      else none
