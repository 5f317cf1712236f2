-- ===== src/Service/Filed.antt =====
-- After a guarded commit the record is on file.
use georesearch_dsh.Prelude.{
  String, ◌≡◌, sym, ap, subst, ◌∙◌, Bool, true, ◌&&◌, List, arith, ◌==◌, eq_refl, all, ok, inl, inr,
  ok-injective,
}
use georesearch_dsh.Dict.{get, or_empty}
use georesearch_dsh.Contracts.Experiment.{ResultRecord}
use georesearch_dsh.Contracts.State.{ProjectReducerState, ProjectStateFile}
use georesearch_dsh.Contracts.Event.{ProjectEvent}
use georesearch_dsh.Reducer.Apply.{apply_event}
use georesearch_dsh.Reducer.History.{Ensures}
use georesearch_dsh.Store.Disk.{Disk, Encoding}
use georesearch_dsh.Store.Snapshot.{rebuild, create_state_file}
use georesearch_dsh.Store.Synced.{IsSynced}
use georesearch_dsh.Service.Host.{
  Host, same_repository_audit_snapshot, same_reproduction_plan_snapshot,
  same_reproduction_test_spec_snapshot,
}
use georesearch_dsh.Service.Guards.{Decision, holds}
use georesearch_dsh.Service.Sources.{source_guard, evidence_guard, audit_guard}
use georesearch_dsh.Service.Plans.{plan_guard, test_spec_guard}
use georesearch_dsh.Service.Reporting.{report_parts}
use georesearch_dsh.Service.Specs.{spec_guard}
use georesearch_dsh.Service.Results.{results_precheck, results_guard}
use georesearch_dsh.Service.Reviews.{validation_guard, review_guard}
use georesearch_dsh.Service.Claims.{claim_guard}
use georesearch_dsh.Service.Writing.{packet_guard, manuscript_guard}
use georesearch_dsh.Service.Commit.{Proposal, Envelope, event_of, guard, precheck, commit_proposal}
use georesearch_dsh.Service.Listed.{found_after_put, All-found, length-map, all-All}
use georesearch_dsh.Service.Committing.{committed_or_kept}

-- A record with the proposal's id is on file and is the same by the test of its method: by its
-- digest, or by its snapshot without the time for audits, plans and test specs.
unfoldable pub on_file : Host → Proposal → ProjectReducerState → Bool
on_file h (Proposal.source r) s =
    holds (λ x. x.digest == r.digest) (get (or_empty s.sources) r.source_id)
on_file h (Proposal.evidence r) s =
    holds (λ x. x.digest == r.digest) (get (or_empty s.evidence) r.evidence_id)
on_file h (Proposal.audit r) s =
    holds (λ x. same_repository_audit_snapshot h x r)
      (get (or_empty s.repository_audits) r.audit_id)
on_file h (Proposal.plan r) s =
    holds (λ x. same_reproduction_plan_snapshot h x r)
      (get (or_empty s.reproduction_plans) r.plan_id)
on_file h (Proposal.test_spec r) s =
    holds (λ x. same_reproduction_test_spec_snapshot h x r)
      (get (or_empty s.reproduction_test_specs) r.spec.test_spec_id)
on_file h (Proposal.report r) s =
    holds (λ x. x.digest == r.digest) (get (or_empty s.reproduction_reports) r.report_id)
on_file h (Proposal.spec b) s =
    holds (λ x. x.digest == b.experiment_spec.digest)
      (get (or_empty s.experiment_specs) b.experiment_spec.spec_id)
on_file h (Proposal.results b) s =
    all (λ r. holds (λ x. x.digest == r.digest) (get (or_empty s.results) r.result_id)) b.results
on_file h (Proposal.validation b) s =
    holds (λ x. x.digest == b.plan.digest) (get (or_empty s.validation_plans) b.plan.plan_id)
    && holds (λ x. x.digest == b.report.digest)
        (get (or_empty s.validation_reports) b.report.report_id)
on_file h (Proposal.review r) s =
    holds (λ x. x.digest == r.digest) (get (or_empty s.review_records) r.review_id)
on_file h (Proposal.claim r) s =
    holds (λ x. x.digest == r.digest) (get (or_empty s.claims) r.claim_id)
on_file h (Proposal.packet r) s =
    holds (λ x. x.digest == r.digest) (get (or_empty s.writing_packets) r.packet_id)
on_file h (Proposal.manuscript b) s =
    holds (λ x. x.digest == b.manuscript.digest)
      (get (or_empty s.manuscripts) b.manuscript.manuscript_id)
    && holds (λ x. x.digest == b.audit.digest) (get (or_empty s.manuscript_audits) b.audit.audit_id)

filed_write :
    (h : Host) (project_id : String) (s : ProjectReducerState) (time : String) (proposal : Proposal)
    → precheck h project_id proposal ≡ ok tt
    → guard h project_id proposal s ≡ ok Decision.write
    → Ensures (λ t. on_file h proposal t ≡ true) (apply_event s time (event_of proposal))
unfolding apply_event guard event_of precheck on_file results_precheck
    same_repository_audit_snapshot same_reproduction_plan_snapshot
    same_reproduction_test_spec_snapshot
filed_write h project_id s time (Proposal.source r) c k =
    found_after_put _ r.source_id r _ (eq_refl r.digest)
filed_write h project_id s time (Proposal.evidence r) c k =
    found_after_put _ r.evidence_id r _ (eq_refl r.digest)
filed_write h project_id s time (Proposal.audit r) c k =
    found_after_put _ r.audit_id r _ (eq_refl _)
filed_write h project_id s time (Proposal.plan r) c k = found_after_put _ r.plan_id r _ (eq_refl _)
filed_write h project_id s time (Proposal.test_spec r) c k =
    found_after_put _ r.spec.test_spec_id r _ (eq_refl _)
filed_write h project_id s time (Proposal.report r) c k =
    found_after_put _ r.report_id r _ (eq_refl r.digest)
filed_write h project_id s time (Proposal.spec b) c k =
    found_after_put _ b.experiment_spec.spec_id b.experiment_spec _
      (eq_refl b.experiment_spec.digest)
filed_write h project_id s time (Proposal.results b) c k = all-All _ b.results (
    All-found (λ (r : ResultRecord). r.result_id) (λ r. r.digest) b.results (or_empty s.results)
      (ground (arith, c, length-map (λ (r : ResultRecord). r.result_id) b.results)))
filed_write h project_id s time (Proposal.validation b) c k = cc (
  found_after_put (or_empty s.validation_plans) b.plan.plan_id b.plan
      (λ x. x.digest == b.plan.digest) (eq_refl b.plan.digest),
  found_after_put (or_empty s.validation_reports) b.report.report_id b.report
      (λ x. x.digest == b.report.digest) (eq_refl b.report.digest),
)
filed_write h project_id s time (Proposal.review r) c k =
    found_after_put _ r.review_id r _ (eq_refl r.digest)
filed_write h project_id s time (Proposal.claim r) c k =
    found_after_put _ r.claim_id r _ (eq_refl r.digest)
filed_write h project_id s time (Proposal.packet r) c k =
    found_after_put _ r.packet_id r _ (eq_refl r.digest)
filed_write h project_id s time (Proposal.manuscript b) c k = cc (
  found_after_put (or_empty s.manuscripts) b.manuscript.manuscript_id b.manuscript
      (λ x. x.digest == b.manuscript.digest) (eq_refl b.manuscript.digest),
  found_after_put (or_empty s.manuscript_audits) b.audit.audit_id b.audit
      (λ x. x.digest == b.audit.digest) (eq_refl b.audit.digest),
)

kept_on_file :
    (h : Host) (project_id : String) (s : ProjectReducerState) (proposal : Proposal)
    → guard h project_id proposal s ≡ ok Decision.keep
    → on_file h proposal s ≡ true
unfolding guard on_file source_guard evidence_guard audit_guard plan_guard test_spec_guard
    spec_guard results_guard validation_guard review_guard claim_guard packet_guard manuscript_guard
kept_on_file h project_id s (Proposal.source r) k = ground (arith, k)
kept_on_file h project_id s (Proposal.evidence r) k = ground (arith, k)
kept_on_file h project_id s (Proposal.audit r) k = ground (arith, k)
kept_on_file h project_id s (Proposal.plan r) k = ground (arith, k)
kept_on_file h project_id s (Proposal.test_spec r) k = ground (arith, k)
kept_on_file h project_id s (Proposal.report r) k =
    let (parts, settled) = report_parts project_id r s Decision.keep k in ground (arith, settled)
kept_on_file h project_id s (Proposal.spec b) k = ground (arith, k)
kept_on_file h project_id s (Proposal.results b) k = ground (arith, k)
kept_on_file h project_id s (Proposal.validation b) k = ground (arith, k)
kept_on_file h project_id s (Proposal.review r) k = ground (arith, k)
kept_on_file h project_id s (Proposal.claim r) k = ground (arith, k)
kept_on_file h project_id s (Proposal.packet r) k = ground (arith, k)
kept_on_file h project_id s (Proposal.manuscript b) k = ground (arith, k)

module _ (h : Host) (p : Encoding) (project_id : String) (disk : Disk) (events : List ProjectEvent)
    (latest : ProjectEvent) (state : ProjectReducerState)
    (synced : IsSynced p project_id disk events latest state) where
  -- If a guarded commit succeeds on a project whose snapshot agrees with its log, the state that it
  -- returns has the record on file: all results of a commit of results, and the plan and the report,
  -- or the manuscript and the audit, where two records are committed together.
  pub committed_is_on_file :
      (e : Envelope) (proposal : Proposal) (time : String) (f : ProjectStateFile)
      → (commit_proposal h p project_id e proposal time disk).0 ≡ ok f
      → on_file h proposal f.state ≡ true
  unfolding rebuild create_state_file
  committed_is_on_file e proposal time f done =
      let (checked, decided) =
        committed_or_kept h p project_id disk events latest state synced e proposal time f done in
      elim decided [
        | inl (kept, same) ↦
            subst (λ (g : ProjectStateFile). on_file h proposal g.state ≡ true)
              (ok-injective (ap (λ r. r.0) (sym same) ∙ done))
              (kept_on_file h project_id state proposal kept)
        | inr (written, applied) ↦
            subst (Ensures (λ t. on_file h proposal t ≡ true)) applied
              (filed_write h project_id state time proposal checked written)
      ]
