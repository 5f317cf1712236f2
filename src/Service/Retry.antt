-- ===== src/Service/Retry.antt =====
-- A guarded commit that is sent again after it has succeeded.
use georesearch_dsh.Prelude.{String, ◌≡◌, sym, ap, subst, ◌∙◌, true, List, Result, ok, inl, inr}
use georesearch_dsh.Contracts.State.{ProjectReducerState, ProjectStateFile}
use georesearch_dsh.Contracts.Event.{ProjectEvent}
use georesearch_dsh.Reducer.History.{Ensures}
use georesearch_dsh.Store.Disk.{Disk, Encoding}
use georesearch_dsh.Store.Snapshot.{rebuild, create_state_file}
use georesearch_dsh.Store.Synced.{IsSynced}
use georesearch_dsh.Store.Commit.{ProjectCommitRequest, commit, load}
use georesearch_dsh.Store.Durability.{
  committed_request, committed_state, commit_durable, load_synced,
}
use georesearch_dsh.Service.Host.{Host}
use georesearch_dsh.Service.Guards.{Decision}
use georesearch_dsh.Service.Commit.{
  Proposal, Envelope, guard, precheck, commit_proposal, proposal_request,
}
use georesearch_dsh.Service.Again.{is_repeatable, kept_after}
use georesearch_dsh.Service.Committing.{committed_or_kept, written_commit, kept_commit}

-- A project after a commit that has succeeded.
settled_load :
    (p : Encoding) (project_id : String) (disk : Disk) (events : List ProjectEvent)
    (latest : ProjectEvent) (state : ProjectReducerState) (r : ProjectCommitRequest) (time : String)
    (f : ProjectStateFile)
    → IsSynced p project_id disk events latest state
    → p.canonical_utc time ≡ true
    → (commit p project_id r time disk).0 ≡ ok f
    → load p project_id (commit p project_id r time disk).1
      ≡ (ok f, (commit p project_id r time disk).1)
settled_load p project_id disk events latest state r time f synced utc done =
    let (valid, expected) =
      committed_request p project_id disk events latest state synced r time f done in
    let reduced = committed_state p project_id disk events latest state synced r time f done in
    let (same, synced', found, generation) =
      commit_durable p project_id disk events latest state synced r time f.state valid expected utc
        reduced in
    cc (same, found, done)

module _ (h : Host) (p : Encoding) (project_id : String) (disk : Disk) (events : List ProjectEvent)
    (latest : ProjectEvent) (state : ProjectReducerState)
    (synced : IsSynced p project_id disk events latest state) where
  abbrev sent : Envelope → Proposal → String → Result ProjectStateFile × Disk
  sent e proposal time = commit_proposal h p project_id e proposal time disk

  resent :
      (e e' : Envelope) (proposal : Proposal) (time time' : String) (f : ProjectStateFile)
      → precheck h project_id proposal ≡ ok tt
      → load p project_id (sent e proposal time).1 ≡ (ok f, (sent e proposal time).1)
      → guard h project_id proposal f.state ≡ ok Decision.keep
      → commit_proposal h p project_id e' proposal time' (sent e proposal time).1
        ≡ (ok f, (sent e proposal time).1)
  resent e e' proposal time time' f checked found kept =
      kept_commit h p project_id (sent e proposal time).1 f e' proposal time' found checked kept

  -- If the commit of a source, of evidence, of an audit, of a plan, of a test spec, of an experiment
  -- spec or of a manuscript succeeds, at a canonical time, on a project whose snapshot agrees with
  -- its log, then the same record sent again, with whatever generation, keys and time, returns the
  -- same state file and writes nothing.
  pub resent_record_is_kept :
      (e e' : Envelope) (proposal : Proposal) (time time' : String) (f : ProjectStateFile)
      → is_repeatable proposal ≡ true
      → p.canonical_utc time ≡ true
      → (commit_proposal h p project_id e proposal time disk).0 ≡ ok f
      → commit_proposal h p project_id e' proposal time'
          (commit_proposal h p project_id e proposal time disk).1
        ≡ (ok f, (commit_proposal h p project_id e proposal time disk).1)
  unfolding rebuild create_state_file
  resent_record_is_kept e e' proposal time time' f repeatable utc done =
      let (checked, decided) =
        committed_or_kept h p project_id disk events latest state synced e proposal time f done in
      elim decided [
        | inl (kept, same) ↦
            resent e e' proposal time time' f checked
              (cc (same, done, load_synced p project_id disk events latest state synced))
              (cc (kept, same, done))
        | inr (written, applied) ↦
            let whole =
              written_commit h p project_id disk events latest state synced e proposal time checked
                written in
            resent e e' proposal time time' f checked
              (subst (λ (x : Result ProjectStateFile × Disk). load p project_id x.1 ≡ (ok f, x.1))
                (sym whole)
                (settled_load p project_id disk events latest state (proposal_request e proposal)
                  time f synced utc (ap (λ x. x.0) (sym whole) ∙ done)))
              (subst (Ensures (λ t. guard h project_id proposal t ≡ ok Decision.keep)) applied
                (kept_after h project_id state time proposal repeatable written))
      ]
