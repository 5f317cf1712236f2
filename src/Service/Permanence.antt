-- ===== src/Service/Permanence.antt =====
-- What a guarded commit leaves of the records on file.
use georesearch_dsh.Prelude.{
  String, ◌≡◌, sym, ap, subst, ◌∙◌, Option, none, some, List, [], ◌∷◌, arith, eq_iff, All, ok, inl,
  inr, ok-injective,
}
use georesearch_dsh.Dict.{Dict, get, or_empty}
use georesearch_dsh.Contracts.Experiment.{ExperimentSpec, ResultRecord}
use georesearch_dsh.Contracts.Run.{RunRecord}
use georesearch_dsh.Contracts.State.{ProjectReducerState, ProjectStateFile}
use georesearch_dsh.Contracts.Event.{ProjectEvent}
use georesearch_dsh.Reducer.Apply.{apply_event}
use georesearch_dsh.Reducer.History.{Ensures}
use georesearch_dsh.Store.Disk.{Disk, Encoding}
use georesearch_dsh.Store.Snapshot.{rebuild, create_state_file}
use georesearch_dsh.Store.Synced.{IsSynced}
use georesearch_dsh.Service.Host.{Host}
use georesearch_dsh.Service.Guards.{Decision}
use georesearch_dsh.Service.Results.{check_result, check_with_spec}
use georesearch_dsh.Service.Resulting.{IsResultable, results_parts}
use georesearch_dsh.Service.Commit.{Proposal, Envelope, event_of, guard, commit_proposal}
use georesearch_dsh.Service.Committing.{committed_or_kept}
use georesearch_dsh.Service.Fresh
use georesearch_dsh.Service.Frozen.{
  IsFrozen, Agrees, IsFrozen-refl, IsFrozen-put, IsFrozen-put_all, IsFrozen-results,
  IsFrozen-evidence, IsFrozen-reports,
}

abbrev pub IsFrozenOption : {V : Type 0} → (V → String) → Option (Dict V) → Option (Dict V) → Type 0
IsFrozenOption digest m n = IsFrozen digest (or_empty m) (or_empty n)

-- Every record of the one state is in the other at its digest. Runs change by their transitions, and
-- the inspections, manifests and amendments that come with a spec are not guarded.
pub record Freezes (s t : ProjectReducerState) : Type 0 where
  pub sources : IsFrozenOption (λ r. r.digest) s.sources t.sources
  pub evidence : IsFrozenOption (λ r. r.digest) s.evidence t.evidence
  pub repository_audits : IsFrozenOption (λ r. r.digest) s.repository_audits t.repository_audits
  pub reproduction_plans : IsFrozenOption (λ r. r.digest) s.reproduction_plans t.reproduction_plans
  pub reproduction_test_specs :
      IsFrozenOption (λ r. r.digest) s.reproduction_test_specs t.reproduction_test_specs
  pub reproduction_reports :
      IsFrozenOption (λ r. r.digest) s.reproduction_reports t.reproduction_reports
  pub experiment_specs : IsFrozenOption (λ r. r.digest) s.experiment_specs t.experiment_specs
  pub results : IsFrozenOption (λ r. r.digest) s.results t.results
  pub validation_plans : IsFrozenOption (λ r. r.digest) s.validation_plans t.validation_plans
  pub validation_reports : IsFrozenOption (λ r. r.digest) s.validation_reports t.validation_reports
  pub review_records : IsFrozenOption (λ r. r.digest) s.review_records t.review_records
  pub claims : IsFrozenOption (λ r. r.digest) s.claims t.claims
  pub writing_packets : IsFrozenOption (λ r. r.digest) s.writing_packets t.writing_packets
  pub manuscripts : IsFrozenOption (λ r. r.digest) s.manuscripts t.manuscripts
  pub manuscript_audits : IsFrozenOption (λ r. r.digest) s.manuscript_audits t.manuscript_audits

results_agree :
    (h : Host) (project_id : String) (s : ProjectReducerState) (run : RunRecord)
    (rs : List ResultRecord)
    → All (λ r. check_result h project_id s run r ≡ ok tt) rs
    → All (Agrees (λ r. r.result_id) (λ r. r.digest) (or_empty s.results)) rs
results_agree h project_id s run [] all = tt
results_agree h project_id s run (r ∷ rs) (checked, all) =
    (agrees, results_agree h project_id s run rs all)
  where
    with_spec :
        (spec : Option ExperimentSpec)
        → check_with_spec h s run r spec ≡ ok tt
        → (w : ResultRecord) → get (or_empty s.results) r.result_id ≡ some w
        → w.digest ≡ r.digest
    with_spec none k w found = cc
    with_spec (some spec) k w found = ground (arith, k, found, eq_iff w.digest r.digest)

    agrees :
        (w : ResultRecord) → get (or_empty s.results) r.result_id ≡ some w → w.digest ≡ r.digest
    agrees w found =
        with_spec (get (or_empty s.experiment_specs) r.experiment_spec_id) (ground (arith, checked))
          w found

ruleset freezing = (IsFrozen-refl, IsFrozen-put, IsFrozen-put_all)

frozen_write :
    (h : Host) (project_id : String) (s : ProjectReducerState) (time : String) (proposal : Proposal)
    → guard h project_id proposal s ≡ ok Decision.write
    → Ensures (Freezes s) (apply_event s time (event_of proposal))
unfolding apply_event guard event_of
frozen_write h project_id s time (Proposal.source r) k =
    let new = Fresh.source_new r s k in search freezing
frozen_write h project_id s time (Proposal.evidence r) k =
    let new = Fresh.evidence_new r s k in search freezing
frozen_write h project_id s time (Proposal.audit r) k =
    let new = Fresh.audit_new h r s k in search freezing
frozen_write h project_id s time (Proposal.plan r) k =
    let new = Fresh.plan_new h r s k in search freezing
frozen_write h project_id s time (Proposal.test_spec r) k =
    let new = Fresh.test_spec_new h r s k in search freezing
frozen_write h project_id s time (Proposal.report r) k =
    let new = Fresh.report_new project_id r s k in search freezing
frozen_write h project_id s time (Proposal.spec b) k =
    let new = Fresh.spec_new project_id b s k in search freezing
frozen_write h project_id s time (Proposal.results b) k =
    let new =
      results_agree h project_id s b.run b.results
        (IsResultable.checked (results_parts h project_id b s _ k)) in
    search freezing
frozen_write h project_id s time (Proposal.validation b) k =
    let (new, newer) = Fresh.validation_new h b s k in search (freezing, IsFrozen-results)
frozen_write h project_id s time (Proposal.review r) k =
    let new = Fresh.review_new h r s k in search (freezing, IsFrozen-evidence, IsFrozen-reports)
frozen_write h project_id s time (Proposal.claim r) k =
    let new = Fresh.claim_new h r s k in search freezing
frozen_write h project_id s time (Proposal.packet r) k =
    let new = Fresh.packet_new h r s k in search freezing
frozen_write h project_id s time (Proposal.manuscript b) k =
    let (new, newer) = Fresh.manuscript_new b s k in search freezing

module _ (h : Host) (p : Encoding) (project_id : String) (disk : Disk) (events : List ProjectEvent)
    (latest : ProjectEvent) (state : ProjectReducerState)
    (synced : IsSynced p project_id disk events latest state) where
  -- A guarded commit that succeeds, of whatever record, on a project whose snapshot agrees with its
  -- log, leaves every record on file in place and at its digest: sources, evidence, audits,
  -- reproduction plans, test specs and reports, experiment specs, results, validation plans and
  -- reports, reviews, claims, writing packets, manuscripts and their audits.
  pub records_are_permanent :
      (e : Envelope) (proposal : Proposal) (time : String) (f : ProjectStateFile)
      → (commit_proposal h p project_id e proposal time disk).0 ≡ ok f
      → Freezes state f.state
  unfolding rebuild create_state_file
  records_are_permanent e proposal time f done =
      elim (committed_or_kept h p project_id disk events latest state synced e proposal time f
        done).1 [
          | inl (kept, same) ↦
              subst (λ (g : ProjectStateFile). Freezes state g.state)
                (ok-injective (ap (λ r. r.0) (sym same) ∙ done)) (search freezing)
          | inr (written, applied) ↦
              subst (Ensures (Freezes state)) applied
                (frozen_write h project_id state time proposal written)
        ]
