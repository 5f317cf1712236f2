-- ===== src/Service/Fresh.antt =====
-- A guard decides to write only what is not on file.
use georesearch_dsh.Prelude.{String, ◌≡◌, refl, Bool, Option, none, some, arith, ok, Failure}
use georesearch_dsh.Dict.{get, or_empty}
use georesearch_dsh.Contracts.Evidence.{SourceRecord, EvidenceRecord}
use georesearch_dsh.Contracts.Reproduction.{
  RepositoryAudit, ReproductionPlan, ReproductionTestSpecRecord, ReproductionReport,
}
use georesearch_dsh.Contracts.Validation.{ReviewRecord}
use georesearch_dsh.Contracts.Claim.{ClaimRecord}
use georesearch_dsh.Contracts.Manuscript.{WritingPacket}
use georesearch_dsh.Contracts.State.{ProjectReducerState}
use georesearch_dsh.Service.Host.{Host}
use georesearch_dsh.Service.Guards.{Decision, settle}
use georesearch_dsh.Service.Sources.{source_guard, evidence_guard, audit_guard}
use georesearch_dsh.Service.Plans.{plan_guard, test_spec_guard}
use georesearch_dsh.Service.Reports.{report_guard}
use georesearch_dsh.Service.Reporting.{report_parts}
use georesearch_dsh.Service.Specs.{SpecBundle, spec_guard}
use georesearch_dsh.Service.Reviews.{ValidationBundle, validation_guard, review_guard}
use georesearch_dsh.Service.Claims.{claim_guard}
use georesearch_dsh.Service.Writing.{ManuscriptBundle, packet_guard, manuscript_guard}

settled_new {ℓ} :
    {A : Type ℓ} (o : Option A) (same : A → Bool) (failure : Failure)
    → settle o same failure ≡ ok Decision.write
    → o ≡ none
settled_new none same failure h = refl
settled_new (some a) same failure h = ground (arith, h)

pub source_new :
    (r : SourceRecord) (s : ProjectReducerState)
    → source_guard r s ≡ ok Decision.write
    → get (or_empty s.sources) r.source_id ≡ none
unfolding source_guard
source_new r s h = settled_new _ _ _ h

pub evidence_new :
    (r : EvidenceRecord) (s : ProjectReducerState)
    → evidence_guard r s ≡ ok Decision.write
    → get (or_empty s.evidence) r.evidence_id ≡ none
unfolding evidence_guard
evidence_new r s h = ground (arith, h)

pub audit_new :
    (x : Host) (r : RepositoryAudit) (s : ProjectReducerState)
    → audit_guard x r s ≡ ok Decision.write
    → get (or_empty s.repository_audits) r.audit_id ≡ none
unfolding audit_guard
audit_new x r s h = ground (arith, h)

pub plan_new :
    (x : Host) (r : ReproductionPlan) (s : ProjectReducerState)
    → plan_guard x r s ≡ ok Decision.write
    → get (or_empty s.reproduction_plans) r.plan_id ≡ none
unfolding plan_guard
plan_new x r s h = ground (arith, h)

pub test_spec_new :
    (x : Host) (r : ReproductionTestSpecRecord) (s : ProjectReducerState)
    → test_spec_guard x r s ≡ ok Decision.write
    → get (or_empty s.reproduction_test_specs) r.spec.test_spec_id ≡ none
unfolding test_spec_guard
test_spec_new x r s h = ground (arith, h)

pub report_new :
    (project_id : String) (r : ReproductionReport) (s : ProjectReducerState)
    → report_guard project_id r s ≡ ok Decision.write
    → get (or_empty s.reproduction_reports) r.report_id ≡ none
report_new project_id r s h =
    let (reportable, settled) = report_parts project_id r s Decision.write h in
    settled_new _ _ _ settled

pub spec_new :
    (project_id : String) (b : SpecBundle) (s : ProjectReducerState)
    → spec_guard project_id b s ≡ ok Decision.write
    → get (or_empty s.experiment_specs) b.experiment_spec.spec_id ≡ none
unfolding spec_guard
spec_new project_id b s h = ground (arith, h)

pub validation_new :
    (x : Host) (b : ValidationBundle) (s : ProjectReducerState)
    → validation_guard x b s ≡ ok Decision.write
    → (get (or_empty s.validation_plans) b.plan.plan_id ≡ none)
      × (get (or_empty s.validation_reports) b.report.report_id ≡ none)
unfolding validation_guard
validation_new x b s h = ground (arith, h)

pub review_new :
    (x : Host) (r : ReviewRecord) (s : ProjectReducerState)
    → review_guard x r s ≡ ok Decision.write
    → get (or_empty s.review_records) r.review_id ≡ none
unfolding review_guard
review_new x r s h = ground (arith, h)

pub claim_new :
    (x : Host) (r : ClaimRecord) (s : ProjectReducerState)
    → claim_guard x r s ≡ ok Decision.write
    → get (or_empty s.claims) r.claim_id ≡ none
unfolding claim_guard
claim_new x r s h = ground (arith, h)

pub packet_new :
    (x : Host) (r : WritingPacket) (s : ProjectReducerState)
    → packet_guard x r s ≡ ok Decision.write
    → get (or_empty s.writing_packets) r.packet_id ≡ none
unfolding packet_guard
packet_new x r s h = ground (arith, h)

pub manuscript_new :
    (b : ManuscriptBundle) (s : ProjectReducerState)
    → manuscript_guard b s ≡ ok Decision.write
    → (get (or_empty s.manuscripts) b.manuscript.manuscript_id ≡ none)
      × (get (or_empty s.manuscript_audits) b.audit.audit_id ≡ none)
unfolding manuscript_guard
manuscript_new b s h = ground (arith, h)
