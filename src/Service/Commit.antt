-- ===== src/Service/Commit.antt =====
-- The guarded commits: a check of the record alone, a load, a check against the state, and the
-- commit of an event, if the record is not on file already.
use georesearch_dsh.Prelude.{ℕ, String, Result, ok, err}
use georesearch_dsh.Contracts.Json.{Sha256Digest}
use georesearch_dsh.Contracts.Evidence.{SourceRecord, EvidenceRecord}
use georesearch_dsh.Contracts.Reproduction.{
  RepositoryAudit, ReproductionPlan, ReproductionTestSpecRecord, ReproductionReport,
}
use georesearch_dsh.Contracts.Validation.{ReviewRecord}
use georesearch_dsh.Contracts.Claim.{ClaimRecord}
use georesearch_dsh.Contracts.Manuscript.{WritingPacket}
use georesearch_dsh.Contracts.State.{ProjectReducerState, ProjectStateFile}
use georesearch_dsh.Contracts.Event.{
  ProjectEventData, source_recorded, evidence_recorded, repository_audit_recorded,
  reproduction_plan_recorded, reproduction_test_spec_recorded, reproduction_report_recorded,
  experiment_spec_committed, result_records_committed, validation_completed, review_recorded,
  claim_recorded, writing_packet_recorded, manuscript_audited,
}
use georesearch_dsh.Store.Disk.{Disk, Encoding}
use georesearch_dsh.Store.Commit.{ProjectCommitRequest, commit, load}
use georesearch_dsh.Service.Host.{Host}
use georesearch_dsh.Service.Guards.{Decision}
use georesearch_dsh.Service.Sources.{source_guard, evidence_guard, audit_precheck, audit_guard}
use georesearch_dsh.Service.Plans.{plan_precheck, plan_guard, test_spec_precheck, test_spec_guard}
use georesearch_dsh.Service.Reports.{report_precheck, report_guard}
use georesearch_dsh.Service.Specs.{SpecBundle, spec_precheck, spec_guard}
use georesearch_dsh.Service.Results.{ResultBundle, results_precheck, results_guard}
use georesearch_dsh.Service.Reviews.{
  ValidationBundle, validation_precheck, validation_guard, review_precheck, review_guard,
}
use georesearch_dsh.Service.Claims.{claim_precheck, claim_guard}
use georesearch_dsh.Service.Writing.{
  ManuscriptBundle, packet_precheck, packet_guard, manuscript_precheck, manuscript_guard,
}

-- What is to be committed; one constructor for each of the thirteen methods.
pub data Proposal : Type 0 where
  source : SourceRecord → Proposal
  evidence : EvidenceRecord → Proposal
  audit : RepositoryAudit → Proposal
  plan : ReproductionPlan → Proposal
  test_spec : ReproductionTestSpecRecord → Proposal
  report : ReproductionReport → Proposal
  spec : SpecBundle → Proposal
  results : ResultBundle → Proposal
  validation : ValidationBundle → Proposal
  review : ReviewRecord → Proposal
  claim : ClaimRecord → Proposal
  packet : WritingPacket → Proposal
  manuscript : ManuscriptBundle → Proposal

-- The fields that the requests of all methods share.
pub record Envelope : Type 0 where
  pub expected_generation : ℕ
  pub operation_key : Sha256Digest
  pub request_digest : Sha256Digest

unfoldable pub event_of : Proposal → ProjectEventData
event_of (Proposal.source r) = source_recorded r
event_of (Proposal.evidence r) = evidence_recorded r
event_of (Proposal.audit r) = repository_audit_recorded r
event_of (Proposal.plan r) = reproduction_plan_recorded r
event_of (Proposal.test_spec r) = reproduction_test_spec_recorded r
event_of (Proposal.report r) = reproduction_report_recorded r
event_of (Proposal.spec b) =
    experiment_spec_committed b.geodata_reports b.dataset_manifests b.experiment_spec b.amendment
event_of (Proposal.results b) = result_records_committed b.run b.results
event_of (Proposal.validation b) = validation_completed b.plan b.report
event_of (Proposal.review r) = review_recorded r
event_of (Proposal.claim r) = claim_recorded r
event_of (Proposal.packet r) = writing_packet_recorded r
event_of (Proposal.manuscript b) = manuscript_audited b.manuscript b.audit

unfoldable pub proposal_request : Envelope → Proposal → ProjectCommitRequest
unfolding event_of
proposal_request e proposal = record {
  expected_generation = e.expected_generation;
  operation_key = e.operation_key;
  request_digest = e.request_digest;
  content = event_of proposal;
}

module _ (h : Host) where
  -- What is checked before the state is loaded.
  unfoldable pub precheck : String → Proposal → Result (Unit {0})
  precheck project_id (Proposal.source r) = ok tt
  precheck project_id (Proposal.evidence r) = ok tt
  precheck project_id (Proposal.audit r) = audit_precheck h project_id r
  precheck project_id (Proposal.plan r) = plan_precheck h project_id r
  precheck project_id (Proposal.test_spec r) = test_spec_precheck h project_id r
  precheck project_id (Proposal.report r) = report_precheck h project_id r
  precheck project_id (Proposal.spec b) = spec_precheck h project_id b
  precheck project_id (Proposal.results b) = results_precheck h b
  precheck project_id (Proposal.validation b) = validation_precheck h project_id b
  precheck project_id (Proposal.review r) = review_precheck h project_id r
  precheck project_id (Proposal.claim r) = claim_precheck h project_id r
  precheck project_id (Proposal.packet r) = packet_precheck h project_id r
  precheck project_id (Proposal.manuscript b) = manuscript_precheck h project_id b

  -- What is checked against the state that is loaded.
  unfoldable pub guard : String → Proposal → ProjectReducerState → Result Decision
  guard project_id (Proposal.source r) s = source_guard r s
  guard project_id (Proposal.evidence r) s = evidence_guard r s
  guard project_id (Proposal.audit r) s = audit_guard h r s
  guard project_id (Proposal.plan r) s = plan_guard h r s
  guard project_id (Proposal.test_spec r) s = test_spec_guard h r s
  guard project_id (Proposal.report r) s = report_guard project_id r s
  guard project_id (Proposal.spec b) s = spec_guard project_id b s
  guard project_id (Proposal.results b) s = results_guard h project_id b s
  guard project_id (Proposal.validation b) s = validation_guard h b s
  guard project_id (Proposal.review r) s = review_guard h r s
  guard project_id (Proposal.claim r) s = claim_guard h r s
  guard project_id (Proposal.packet r) s = packet_guard h r s
  guard project_id (Proposal.manuscript b) s = manuscript_guard b s

  module _ (p : Encoding) (project_id : String) where
    abbrev pub settle_commit :
        Envelope
        → Proposal
        → String
        → ProjectStateFile
        → Result Decision
        → Disk
        → Result ProjectStateFile × Disk
    settle_commit e proposal time current (err failure) disk = (err failure, disk)
    settle_commit e proposal time current (ok Decision.keep) disk = (ok current, disk)
    settle_commit e proposal time current (ok Decision.write) disk =
        commit p project_id (proposal_request e proposal) time disk

    abbrev pub commit_loaded :
        Envelope
        → Proposal
        → String
        → Result ProjectStateFile
        → Disk
        → Result ProjectStateFile × Disk
    commit_loaded e proposal time (err failure) disk = (err failure, disk)
    commit_loaded e proposal time (ok current) disk =
        settle_commit e proposal time current (guard project_id proposal current.state) disk

    abbrev pub commit_checked :
        Envelope → Proposal → String → Result (Unit {0}) → Disk → Result ProjectStateFile × Disk
    commit_checked e proposal time (err failure) disk = (err failure, disk)
    commit_checked e proposal time (ok u) disk =
        let (current, disk') = load p project_id disk in commit_loaded e proposal time current disk'

    -- No other commit runs between the load and the commit.
    unfoldable pub commit_proposal :
        Envelope → Proposal → String → Disk → Result ProjectStateFile × Disk
    commit_proposal e proposal time disk =
        commit_checked e proposal time (precheck project_id proposal) disk
