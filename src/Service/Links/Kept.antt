-- ===== src/Service/Links/Kept.antt =====
-- Guarded commits keep the references of a project in order.
use georesearch_dsh.Prelude.{
  String, ◌≡◌, refl, sym, ap, subst, ◌∙◌, List, [], ◌∷◌, arith, eq_iff, All, ok, inl, inr,
  ok-injective,
}
use georesearch_dsh.Dict.{put, or_empty, get-put}
use georesearch_dsh.Contracts.Run.{RunRecord}
use georesearch_dsh.Contracts.Experiment.{ResultRecord}
use georesearch_dsh.Contracts.State.{ProjectReducerState, ProjectStateFile}
use georesearch_dsh.Contracts.Event.{ProjectEvent}
use georesearch_dsh.Reducer.Apply.{apply_event}
use georesearch_dsh.Reducer.History.{Ensures, Grows-put}
use georesearch_dsh.Reducer.Maps.{status_of, review_status_of}
use georesearch_dsh.Store.Disk.{Disk, Encoding}
use georesearch_dsh.Store.Snapshot.{rebuild, create_state_file}
use georesearch_dsh.Store.Synced.{IsSynced}
use georesearch_dsh.Service.Host.{Host}
use georesearch_dsh.Service.Guards.{Decision}
use georesearch_dsh.Service.Commit.{Proposal, Envelope, event_of, guard, commit_proposal}
use georesearch_dsh.Service.Committing.{committed_or_kept}
use georesearch_dsh.Service.Frozen.{IsFrozen-put}
use georesearch_dsh.Service.Fresh
use georesearch_dsh.Service.Resulting.{results_parts}
use georesearch_dsh.Service.Links.{IsLinked}
use georesearch_dsh.Service.Links.Updates.{
  At, Refers-target, Names-target, Names-grown, Refers-put, Refers-put_all, Names-evidence,
  Refers-reports, Refers-results,
}
use georesearch_dsh.Service.Links.Guarded

runs-At :
    (s : ProjectReducerState) (run : RunRecord) (rs : List ResultRecord)
    → All (λ r. run.run_id ≡ r.run_id) rs
    → All (λ r. At (λ (w : RunRecord). "") (put s.runs run.run_id run) r.run_id "") rs
runs-At s run [] all = tt
runs-At s run (r ∷ rs) (same, all) = (
  (run, ground (arith, get-put s.runs run.run_id r.run_id run, eq_iff run.run_id r.run_id), refl),
  runs-At s run rs all,
)

ruleset linking = (Refers-target, Names-target, Refers-put, Refers-put_all)

IsLinked-write :
    (h : Host) (project_id : String) (s : ProjectReducerState) (time : String) (proposal : Proposal)
    → IsLinked s
    → guard h project_id proposal s ≡ ok Decision.write
    → Ensures IsLinked (apply_event s time (event_of proposal))
unfolding apply_event guard event_of
IsLinked-write h project_id s time (Proposal.source r) l k =
    let frozen =
      IsFrozen-put (λ w. w.digest) (or_empty s.sources) r.source_id r (Fresh.source_new r s k) in
    search linking
IsLinked-write h project_id s time (Proposal.evidence r) l k =
    let at = Guarded.evidence-At r s _ k in search linking
IsLinked-write h project_id s time (Proposal.audit r) l k =
    let frozen =
      IsFrozen-put (λ w. w.digest) (or_empty s.repository_audits) r.audit_id r
        (Fresh.audit_new h r s k) in
    let at = Guarded.audit-At h r s _ k in search linking
IsLinked-write h project_id s time (Proposal.plan r) l k =
    let frozen =
      IsFrozen-put (λ w. w.digest) (or_empty s.reproduction_plans) r.plan_id r
        (Fresh.plan_new h r s k) in
    let at = Guarded.plan-At h r s _ k in search linking
IsLinked-write h project_id s time (Proposal.test_spec r) l k =
    let (plan, audit) = Guarded.test_spec-At h r s _ k in search linking
IsLinked-write h project_id s time (Proposal.report r) l k =
    let (plan, baseline, final) = Guarded.report-At project_id r s _ k in search linking
IsLinked-write h project_id s time (Proposal.spec b) l k =
    let frozen =
      IsFrozen-put (λ w. w.digest) (or_empty s.experiment_specs) b.experiment_spec.spec_id
        b.experiment_spec (Fresh.spec_new project_id b s k) in
    let at = Guarded.spec-At project_id b s _ k in search linking
IsLinked-write h project_id s time (Proposal.results b) l k =
    let parts = results_parts h project_id b s _ k in
    let (specs, same) = Guarded.results-At h project_id s b.run b.results parts.checked in
    let runs = runs-At s b.run b.results same in
    let old = Names-grown _ _ _ _ (Grows-put s.runs b.run.run_id b.run) l.result_run in
    search linking
IsLinked-write h project_id s time (Proposal.validation b) l k =
    let of_spec =
      Refers-results _ _ _ _ (λ x v. refl) (λ x v. refl) (status_of b.report.overall) _
        b.report.subjects l.result_spec in
    let of_run =
      Refers-results _ _ _ _ (λ x v. refl) (λ x v. refl) (status_of b.report.overall) _
        b.report.subjects l.result_run in
    search linking
IsLinked-write h project_id s time (Proposal.review r) l k =
    let status = review_status_of r.recommendation in
    let of_source = Names-evidence _ status _ r.subject_refs l.evidence_source in
    let of_plan =
      Refers-reports _ _ _ _ (λ x v. refl) (λ x v. refl) status _ r.subject_refs l.report_plan in
    let of_baseline =
      Refers-reports _ _ _ _ (λ x v. refl) (λ x v. refl) status _ r.subject_refs
        l.report_baseline in
    let of_final =
      Refers-reports _ _ _ _ (λ x v. refl) (λ x v. refl) status _ r.subject_refs l.report_final in
    search linking
IsLinked-write h project_id s time (Proposal.claim r) l k = search linking
IsLinked-write h project_id s time (Proposal.packet r) l k =
    let frozen =
      IsFrozen-put (λ w. w.digest) (or_empty s.writing_packets) r.packet_id r
        (Fresh.packet_new h r s k) in
    search linking
IsLinked-write h project_id s time (Proposal.manuscript b) l k =
    let at = Guarded.manuscript-At b s _ k in search linking

module _ (h : Host) (p : Encoding) (project_id : String) (disk : Disk) (events : List ProjectEvent)
    (latest : ProjectEvent) (state : ProjectReducerState)
    (synced : IsSynced p project_id disk events latest state) where
  -- A guarded commit that succeeds, of whatever record, on a project whose snapshot agrees with its
  -- log, keeps it that the references between records resolve. Audits name a source, plans an audit,
  -- reports a plan and two audits, experiment specs an audit, results a spec, and manuscripts a packet
  -- that is on file with the digest that the record gives. Evidence names by its id a source that is on
  -- file, test specs a plan and an audit, and results a run; the digest that a result gives of its run
  -- is not among this, since a later commit of results may write the outputs of the run.
  pub commits_keep_links :
      (e : Envelope) (proposal : Proposal) (time : String) (f : ProjectStateFile)
      → IsLinked state
      → (commit_proposal h p project_id e proposal time disk).0 ≡ ok f
      → IsLinked f.state
  unfolding rebuild create_state_file
  commits_keep_links e proposal time f linked done =
      elim (committed_or_kept h p project_id disk events latest state synced e proposal time f
        done).1 [
          | inl (kept, same) ↦
              subst (λ (g : ProjectStateFile). IsLinked g.state)
                (ok-injective (ap (λ r. r.0) (sym same) ∙ done)) linked
          | inr (written, applied) ↦
              subst (Ensures IsLinked) applied
                (IsLinked-write h project_id state time proposal linked written)
        ]
