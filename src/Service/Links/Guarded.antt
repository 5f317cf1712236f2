-- ===== src/Service/Links/Guarded.antt =====
-- What a guard lets through names what is on file.
use georesearch_dsh.Prelude.{
  String, ◌≡◌, refl, Option, none, some, List, [], ◌∷◌, arith, eq_iff, All, ok,
}
use georesearch_dsh.Dict.{get, or_empty}
use georesearch_dsh.Contracts.Evidence.{EvidenceRecord}
use georesearch_dsh.Contracts.Run.{RunRecord}
use georesearch_dsh.Contracts.Experiment.{ExperimentSpec, ResultRecord}
use georesearch_dsh.Contracts.Reproduction.{
  RepositoryAudit, ReproductionPlan, ReproductionTestSpecRecord, ReproductionReport,
}
use georesearch_dsh.Contracts.State.{ProjectReducerState}
use georesearch_dsh.Service.Host.{Host}
use georesearch_dsh.Service.Guards.{Decision}
use georesearch_dsh.Service.Sources.{evidence_guard, audit_guard}
use georesearch_dsh.Service.Plans.{plan_guard, test_spec_guard}
use georesearch_dsh.Service.Reports.{report_guard}
use georesearch_dsh.Service.Reporting.{report_parts}
use georesearch_dsh.Service.Specs.{SpecBundle, spec_guard}
use georesearch_dsh.Service.Results.{check_result, check_with_spec}
use georesearch_dsh.Service.Writing.{ManuscriptBundle, manuscript_guard}
use georesearch_dsh.Service.Links.Updates.{At, found-At, named}

pub evidence-At :
    (r : EvidenceRecord) (s : ProjectReducerState) (d : Decision)
    → evidence_guard r s ≡ ok d
    → At (λ w. "") (or_empty s.sources) r.source_id ""
unfolding evidence_guard
evidence-At r s d h = named (or_empty s.sources) r.source_id (ground (arith, h))

pub audit-At :
    (x : Host) (r : RepositoryAudit) (s : ProjectReducerState) (d : Decision)
    → audit_guard x r s ≡ ok d
    → At (λ w. w.digest) (or_empty s.sources) r.source_id r.source_digest
unfolding audit_guard
audit-At x r s d h =
    found-At (λ w. w.digest) (or_empty s.sources) r.source_id r.source_digest (ground (arith, h))

pub plan-At :
    (x : Host) (r : ReproductionPlan) (s : ProjectReducerState) (d : Decision)
    → plan_guard x r s ≡ ok d
    → At
        (λ w. w.digest)
        (or_empty s.repository_audits)
        r.repository_audit_id
        r.repository_audit_digest
unfolding plan_guard
plan-At x r s d h =
    found-At (λ w. w.digest) (or_empty s.repository_audits) r.repository_audit_id
      r.repository_audit_digest (ground (arith, h))

pub test_spec-At :
    (x : Host) (r : ReproductionTestSpecRecord) (s : ProjectReducerState) (d : Decision)
    → test_spec_guard x r s ≡ ok d
    → At (λ w. "") (or_empty s.reproduction_plans) r.plan_id ""
      × At (λ w. "") (or_empty s.repository_audits) r.repository_audit_id ""
unfolding test_spec_guard
test_spec-At x r s d h = (
  named (or_empty s.reproduction_plans) r.plan_id (ground (arith, h)),
  named (or_empty s.repository_audits) r.repository_audit_id (ground (arith, h)),
)

pub report-At :
    (project_id : String) (r : ReproductionReport) (s : ProjectReducerState) (d : Decision)
    → report_guard project_id r s ≡ ok d
    → At (λ w. w.digest) (or_empty s.reproduction_plans) r.plan_id r.plan_digest
      × At
          (λ w. w.digest)
          (or_empty s.repository_audits)
          r.baseline_audit_id
          r.baseline_audit_digest
      × At (λ w. w.digest) (or_empty s.repository_audits) r.final_audit_id r.final_audit_digest
report-At project_id r s d h =
    let parts = (report_parts project_id r s d h).0 in
    (
      (
        parts.plan,
        parts.plan_found,
        ground (arith, parts.current, eq_iff parts.plan.digest r.plan_digest),
      ),
      (
        parts.baseline,
        parts.baseline_found,
        ground (arith, parts.current, eq_iff parts.baseline.digest r.baseline_audit_digest),
      ),
      (
        parts.final,
        parts.final_found,
        ground (arith, parts.current, eq_iff parts.final.digest r.final_audit_digest),
      ),
    )

pub spec-At :
    (project_id : String) (b : SpecBundle) (s : ProjectReducerState) (d : Decision)
    → spec_guard project_id b s ≡ ok d
    → At
        (λ w. w.digest)
        (or_empty s.repository_audits)
        b.experiment_spec.repository_audit_id
        b.experiment_spec.repository_audit_digest
unfolding spec_guard
spec-At project_id b s d h =
    found-At (λ w. w.digest) (or_empty s.repository_audits) b.experiment_spec.repository_audit_id
      b.experiment_spec.repository_audit_digest (ground (arith, h))

module _ (h : Host) (project_id : String) (s : ProjectReducerState) (run : RunRecord) where
  abbrev pub SpecAt : ResultRecord → Type 0
  SpecAt r =
      At (λ (w : ExperimentSpec). w.digest) (or_empty s.experiment_specs) r.experiment_spec_id
        r.experiment_spec_digest

  result-At :
      (r : ResultRecord)
      → check_result h project_id s run r ≡ ok tt
      → SpecAt r × (run.run_id ≡ r.run_id)
  result-At r k =
      go (get (or_empty s.experiment_specs) r.experiment_spec_id) refl (ground (arith, k))
    where
      go :
          (spec : Option ExperimentSpec)
          → get (or_empty s.experiment_specs) r.experiment_spec_id ≡ spec
          → check_with_spec h s run r spec ≡ ok tt
          → SpecAt r × (run.run_id ≡ r.run_id)
      go none f c = cc
      go (some spec) f c = (
        (spec, f, ground (arith, c, eq_iff spec.digest r.experiment_spec_digest)),
        ground (arith, c, eq_iff r.run_id run.run_id),
      )

  pub results-At :
      (rs : List ResultRecord)
      → All (λ r. check_result h project_id s run r ≡ ok tt) rs
      → All SpecAt rs × All (λ r. run.run_id ≡ r.run_id) rs
  results-At [] all = (tt, tt)
  results-At (r ∷ rs) (checked, all) =
      let (spec, same) = result-At r checked in
      let (specs, sames) = results-At rs all in ((spec, specs), (same, sames))

pub manuscript-At :
    (b : ManuscriptBundle) (s : ProjectReducerState) (d : Decision)
    → manuscript_guard b s ≡ ok d
    → At
        (λ w. w.digest)
        (or_empty s.writing_packets)
        b.manuscript.packet_id
        b.manuscript.packet_digest
unfolding manuscript_guard
manuscript-At b s d h =
    found-At (λ w. w.digest) (or_empty s.writing_packets) b.manuscript.packet_id
      b.manuscript.packet_digest (ground (arith, h))
