-- ===== src/Service/Reporting.antt =====
-- What `commitReproductionReport` lets through.
use georesearch_dsh.Prelude.{
  String, ◌≡◌, refl, true, Option, none, some, List, arith, Result, ok, err, ◌>>=◌, >>=-ok_parts,
  ◌==◌,
}
use georesearch_dsh.Dict.{get, or_empty}
use georesearch_dsh.Contracts.Run.{RunRecord}
use georesearch_dsh.Contracts.Reproduction.{RepositoryAudit, ReproductionPlan, ReproductionReport}
use georesearch_dsh.Contracts.State.{ProjectReducerState}
use georesearch_dsh.Service.Guards.{Decision, settle}
use georesearch_dsh.Service.Outcomes.{Violation, outcome_violation}
use georesearch_dsh.Service.Reports.{
  report_guard, report_on, settle_report, references_are_current, reported_runs, test_specs_of,
  report_invalid,
}

-- The records that a report rests on, and that they allow it.
pub record IsReportable (project_id : String) (report : ReproductionReport)
    (s : ProjectReducerState) : Type 0 where
  pub plan : ReproductionPlan
  pub baseline : RepositoryAudit
  pub final : RepositoryAudit
  pub runs : List RunRecord
  pub plan_found : get (or_empty s.reproduction_plans) report.plan_id ≡ some plan
  pub baseline_found : get (or_empty s.repository_audits) report.baseline_audit_id ≡ some baseline
  pub final_found : get (or_empty s.repository_audits) report.final_audit_id ≡ some final
  pub current : references_are_current s report plan baseline final ≡ true
  pub runs_found : reported_runs project_id plan final s report.run_ids ≡ ok runs
  pub allowed : outcome_violation report plan baseline final runs (test_specs_of s) ≡ none

settled_outcome :
    (report : ReproductionReport) (s : ProjectReducerState) (v : Option Violation) (d : Decision)
    → settle_report report s v ≡ ok d
    → (v ≡ none)
      × (settle
            (get (or_empty s.reproduction_reports) report.report_id)
            (λ existing. existing.digest == report.digest)
            report_invalid
          ≡ ok d)
settled_outcome report s none d h = (refl, h)
settled_outcome report s (some v) d h = cc

pub report_parts :
    (project_id : String) (report : ReproductionReport) (s : ProjectReducerState) (d : Decision)
    → report_guard project_id report s ≡ ok d
    → IsReportable project_id report s
      × (settle
            (get (or_empty s.reproduction_reports) report.report_id)
            (λ existing. existing.digest == report.digest)
            report_invalid
          ≡ ok d)
unfolding report_guard report_on
report_parts project_id report s d h =
    go (get (or_empty s.reproduction_plans) report.plan_id)
      (get (or_empty s.repository_audits) report.baseline_audit_id)
      (get (or_empty s.repository_audits) report.final_audit_id) refl refl refl h
  where
    on_runs :
        (plan : ReproductionPlan) (baseline final : RepositoryAudit)
        → get (or_empty s.reproduction_plans) report.plan_id ≡ some plan
        → get (or_empty s.repository_audits) report.baseline_audit_id ≡ some baseline
        → get (or_empty s.repository_audits) report.final_audit_id ≡ some final
        → references_are_current s report plan baseline final ≡ true
        → (reported_runs project_id plan final s report.run_ids >>= λ runs.
            settle_report report s
              (outcome_violation report plan baseline final runs (test_specs_of s)))
          ≡ ok d
        → IsReportable project_id report s
          × (settle
                (get (or_empty s.reproduction_reports) report.report_id)
                (λ existing. existing.digest == report.digest)
                report_invalid
              ≡ ok d)
    on_runs plan baseline final p b f c k =
        let (runs, found, rest) = >>=-ok_parts _ _ k in
        let (allowed, settled) = settled_outcome report s _ d rest in
        (
          record {
            plan = plan;
            baseline = baseline;
            final = final;
            runs = runs;
            plan_found = p;
            baseline_found = b;
            final_found = f;
            current = c;
            runs_found = found;
            allowed = allowed;
          },
          settled,
        )

    refused : {C : Type 0} → ◌≡◌ {A = Result Decision} (err report_invalid) (ok d) → C
    refused k = cc

    go :
        (p : Option ReproductionPlan) (b f : Option RepositoryAudit)
        → get (or_empty s.reproduction_plans) report.plan_id ≡ p
        → get (or_empty s.repository_audits) report.baseline_audit_id ≡ b
        → get (or_empty s.repository_audits) report.final_audit_id ≡ f
        → report_on project_id report s p b f ≡ ok d
        → IsReportable project_id report s
          × (settle
                (get (or_empty s.reproduction_reports) report.report_id)
                (λ existing. existing.digest == report.digest)
                report_invalid
              ≡ ok d)
    go (some plan) (some baseline) (some final) p b f k =
        on_runs plan baseline final p b f (ground (arith, k)) (ground (arith, k))
    go none _ _ p b f k = refused k
    go (some plan) none _ p b f k = refused k
    go (some plan) (some baseline) none p b f k = refused k
