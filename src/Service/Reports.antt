-- ===== src/Service/Reports.antt =====
-- `commitReproductionReport`: what it checks.
use georesearch_dsh.Prelude.{
  String, Bool, ◌&&◌, ◌||◌, not, Option, none, some, List, [], ◌∷◌, ◌==◌, nat_eq, any, includes,
  if◌then◌else◌, Result, ok, err, ◌>>=◌, Failure, geo_research_error, other_error,
}
use georesearch_dsh.Dict.{get, values, or_empty}
use georesearch_dsh.Contracts.Evidence.{ReviewStatus}
use georesearch_dsh.Contracts.Run.{RunRecord}
use georesearch_dsh.Contracts.Reproduction.{
  RepositoryAudit, ReproductionPlan, ReproductionReport, ReproductionDiagnosis,
  ReproductionTestSpecRecord,
}
use georesearch_dsh.Contracts.State.{ProjectReducerState}
use georesearch_dsh.Service.Host.{Host, Canonical, digest_json}
use georesearch_dsh.Service.Guards.{Decision, holds, settle, is_sound, is_current_artifact}
use georesearch_dsh.Service.Outcomes.{Violation, outcome_violation, run_on_tree, run_has_spec}

abbrev pub report_invalid : Failure
report_invalid = geo_research_error "REPRODUCTION_REPORT_INVALID"

abbrev pub failure_of : Violation → Failure
failure_of Violation.report_invalid = report_invalid
failure_of Violation.baseline_modified = geo_research_error "REPRODUCTION_BASELINE_MODIFIED"

-- `assertLifecycleRecordDigest` for a report: the status is left out, or was `pending`.
unfoldable pub report_precheck : Host → String → ReproductionReport → Result (Unit {0})
unfolding digest_json
report_precheck h project_id report =
    if not (digest_json h (Canonical.stable_report body) == report.digest)
      && not (digest_json h (Canonical.pending_report body) == report.digest)
    then err other_error
    else if not (report.project_id == project_id)
    then err other_error
    else ok tt
  where
    body : ReproductionReport
    body = record report { digest = ""; review_status = ReviewStatus.pending }

abbrev pub references_are_current :
    ProjectReducerState
    → ReproductionReport
    → ReproductionPlan
    → RepositoryAudit
    → RepositoryAudit
    → Bool
references_are_current s report plan baseline final =
    plan.digest == report.plan_digest
    && baseline.digest == report.baseline_audit_digest
    && final.digest == report.final_audit_digest
    && baseline.audit_id == plan.repository_audit_id
    && baseline.source_tree_digest == plan.source_tree_digest
    && baseline.workspace_id == plan.workspace_id
    && nat_eq baseline.workspace_binding_version plan.workspace_binding_version
    && final.source_id == plan.source_id
    && final.workspace_id == plan.workspace_id
    && nat_eq final.workspace_binding_version plan.workspace_binding_version
    && report.workspace_id == plan.workspace_id
    && nat_eq report.workspace_binding_version plan.workspace_binding_version
    && is_current_artifact s report.report_artifact

-- A diagnosis that names a run that is not reported, or an artifact that may not be relied on.
abbrev pub diagnosis_is_loose : ProjectReducerState → List String → ReproductionDiagnosis → Bool
diagnosis_is_loose s run_ids d =
    any (λ k. not (includes k run_ids)) d.related_run_ids
    || any (λ k. not (holds is_sound (get s.artifacts k))) d.related_artifact_ids

abbrev pub test_specs_of : ProjectReducerState → List ReproductionTestSpecRecord
test_specs_of s = values (or_empty s.reproduction_test_specs)

abbrev pub admit_run :
    String
    → ReproductionPlan
    → RepositoryAudit
    → List ReproductionTestSpecRecord
    → Option RunRecord
    → Result RunRecord
admit_run project_id plan final test_specs none = err report_invalid
admit_run project_id plan final test_specs (some run) =
    if not (run.project_id == project_id && run_on_tree run plan final)
      || not (run_has_spec run plan final test_specs)
    then err report_invalid
    else ok run

-- The loop over the runs of a report.
unfoldable pub reported_runs :
    String
    → ReproductionPlan
    → RepositoryAudit
    → ProjectReducerState
    → List String
    → Result (List RunRecord)
reported_runs project_id plan final s [] = ok []
reported_runs project_id plan final s (k ∷ ks) =
    admit_run project_id plan final (test_specs_of s) (get s.runs k) >>= λ run.
    reported_runs project_id plan final s ks >>= λ runs. ok (run ∷ runs)

abbrev pub settle_report :
    ReproductionReport → ProjectReducerState → Option Violation → Result Decision
settle_report report s (some violation) = err (failure_of violation)
settle_report report s none =
    settle (get (or_empty s.reproduction_reports) report.report_id)
      (λ existing. existing.digest == report.digest) report_invalid

unfoldable pub report_on :
    String
    → ReproductionReport
    → ProjectReducerState
    → Option ReproductionPlan
    → Option RepositoryAudit
    → Option RepositoryAudit
    → Result Decision
report_on project_id report s none baseline final = err report_invalid
report_on project_id report s (some plan) none final = err report_invalid
report_on project_id report s (some plan) (some baseline) none = err report_invalid
report_on project_id report s (some plan) (some baseline) (some final) =
    if not (references_are_current s report plan baseline final)
    then err report_invalid
    else if any (diagnosis_is_loose s report.run_ids) report.diagnostics
    then err report_invalid
    else reported_runs project_id plan final s report.run_ids >>= λ runs.
        settle_report report s (outcome_violation report plan baseline final runs (test_specs_of s))

unfoldable pub report_guard : String → ReproductionReport → ProjectReducerState → Result Decision
report_guard project_id report s =
    report_on project_id report s (get (or_empty s.reproduction_plans) report.plan_id)
      (get (or_empty s.repository_audits) report.baseline_audit_id)
      (get (or_empty s.repository_audits) report.final_audit_id)
