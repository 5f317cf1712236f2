-- ===== src/Service/Committing.antt =====
-- What a guarded commit does, by how its guard decides.
use georesearch_dsh.Prelude.{
  String, ◌≡◌, ◌⊎◌, refl, sym, ap, ◌∙◌, List, arith, ok, err, Result, Failure, inl, inr,
}
use georesearch_dsh.Contracts.State.{ProjectReducerState, ProjectStateFile}
use georesearch_dsh.Contracts.Event.{ProjectEvent}
use georesearch_dsh.Reducer.Apply.{apply_event}
use georesearch_dsh.Reducer.Step.{reduce-apply}
use georesearch_dsh.Store.Log.{create_event}
use georesearch_dsh.Store.Disk.{Disk, Encoding}
use georesearch_dsh.Store.Commit.{commit, load, next_event}
use georesearch_dsh.Store.Snapshot.{rebuild, create_state_file}
use georesearch_dsh.Store.Synced.{IsSynced}
use georesearch_dsh.Store.Durability.{load_synced, committed_state, failed_commit_writes_nothing}
use georesearch_dsh.Service.Host.{Host}
use georesearch_dsh.Service.Guards.{Decision}
use georesearch_dsh.Service.Commit.{
  Proposal, Envelope, event_of, proposal_request, precheck, guard, settle_commit, commit_proposal,
}

module _ (h : Host) (p : Encoding) (project_id : String) (disk : Disk) (events : List ProjectEvent)
    (latest : ProjectEvent) (state : ProjectReducerState)
    (synced : IsSynced p project_id disk events latest state) where
  abbrev current : ProjectStateFile
  current = rebuild p project_id events latest state

  loaded :
      (e : Envelope) (proposal : Proposal) (time : String)
      → precheck h project_id proposal ≡ ok tt
      → commit_proposal h p project_id e proposal time disk
        ≡ settle_commit h p project_id e proposal time current
            (guard h project_id proposal state)
            disk
  unfolding commit_proposal rebuild create_state_file
  loaded e proposal time checked =
      rw checked (rw (load_synced p project_id disk events latest state synced) refl)

  prechecked :
      (e : Envelope) (proposal : Proposal) (time : String) (f : ProjectStateFile)
      → (commit_proposal h p project_id e proposal time disk).0 ≡ ok f
      → precheck h project_id proposal ≡ ok tt
  unfolding commit_proposal
  prechecked e proposal time f done = ground (arith, done)

  -- If a guarded commit succeeds, its checks have passed. Either the record was on file, and the
  -- state file is returned and nothing written, or the record was not, and its event is applied.
  pub committed_or_kept :
      (e : Envelope) (proposal : Proposal) (time : String) (f : ProjectStateFile)
      → (commit_proposal h p project_id e proposal time disk).0 ≡ ok f
      → (precheck h project_id proposal ≡ ok tt)
        × (((guard h project_id proposal state ≡ ok Decision.keep)
              × (commit_proposal h p project_id e proposal time disk ≡ (ok current, disk)))
            ⊎ ((guard h project_id proposal state ≡ ok Decision.write)
                × (apply_event state time (event_of proposal) ≡ ok f.state)))
  unfolding proposal_request next_event create_event
  committed_or_kept e proposal time f done = (
    checked,
    settled (guard h project_id proposal state) refl
        (ap (λ x. x.0) (sym (loaded e proposal time checked)) ∙ done),
  )
    where
      checked : precheck h project_id proposal ≡ ok tt
      checked = prechecked e proposal time f done

      settled :
          (d : Result Decision)
          → guard h project_id proposal state ≡ d
          → (settle_commit h p project_id e proposal time current d disk).0 ≡ ok f
          → ((guard h project_id proposal state ≡ ok Decision.keep)
              × (commit_proposal h p project_id e proposal time disk ≡ (ok current, disk)))
            ⊎ ((guard h project_id proposal state ≡ ok Decision.write)
                × (apply_event state time (event_of proposal) ≡ ok f.state))
      settled (err failure) decided r = cc
      settled (ok Decision.keep) decided r =
          inl (decided, loaded e proposal time checked ∙ rw decided refl)
      settled (ok Decision.write) decided r = inr (
        decided,
        sym (reduce-apply state (next_event p current (proposal_request e proposal) time))
            ∙ committed_state p project_id disk events latest state synced
                (proposal_request e proposal) time f r,
      )

  -- If a guarded commit succeeds, its guard has decided.
  pub decided_ok :
      (e : Envelope) (proposal : Proposal) (time : String) (f : ProjectStateFile)
      → (commit_proposal h p project_id e proposal time disk).0 ≡ ok f
      → (d : Decision) × (guard h project_id proposal state ≡ ok d)
  decided_ok e proposal time f done = elim (committed_or_kept e proposal time f done).1 [
    | inl (kept, same) ↦ (Decision.keep, kept)
    | inr (written, applied) ↦ (Decision.write, written)
  ]

  -- A guarded commit that is refused writes nothing, whichever check refuses it: that of the record,
  -- that of the state, or that of the store. The snapshot of the project agrees with its log.
  pub refused_commit_writes_nothing :
      (e : Envelope) (proposal : Proposal) (time : String) (failure : Failure)
      → (commit_proposal h p project_id e proposal time disk).0 ≡ err failure
      → (commit_proposal h p project_id e proposal time disk).1 ≡ disk
  unfolding commit_proposal rebuild create_state_file
  refused_commit_writes_nothing e proposal time failure refused = ground (
    arith,
    refused,
    load_synced p project_id disk events latest state synced,
    failed_commit_writes_nothing p project_id disk events latest state synced
        (proposal_request e proposal) time failure,
  )

  -- A commit whose guard finds the record to be new is a commit of its event.
  pub written_commit :
      (e : Envelope) (proposal : Proposal) (time : String)
      → precheck h project_id proposal ≡ ok tt
      → guard h project_id proposal state ≡ ok Decision.write
      → commit_proposal h p project_id e proposal time disk
        ≡ commit p project_id (proposal_request e proposal) time disk
  written_commit e proposal time checked written = loaded e proposal time checked ∙ rw written refl

-- A commit whose guard finds the record on file returns the state file that it has loaded, and
-- writes nothing.
pub kept_commit :
    (h : Host) (p : Encoding) (project_id : String) (disk : Disk) (current : ProjectStateFile)
    (e : Envelope) (proposal : Proposal) (time : String)
    → load p project_id disk ≡ (ok current, disk)
    → precheck h project_id proposal ≡ ok tt
    → guard h project_id proposal current.state ≡ ok Decision.keep
    → commit_proposal h p project_id e proposal time disk ≡ (ok current, disk)
unfolding commit_proposal
kept_commit h p project_id disk current e proposal time found checked kept =
    rw checked (rw found (rw kept refl))
