-- ===== src/Service/Updating.antt =====
-- What becomes of a run on record: `commitRunRecord` moves it, and the guarded commits, of which
-- `commitResultRecords` writes its outputs, leave it in its state.
use georesearch_dsh.Prelude.{
  ℕ, suc, ◌+◌, ◌≤◌, ◌<◌, String, ◌≡◌, ◌≢◌, ◌⊎◌, refl, sym, ap, subst, ◌∙◌, true, some, List, arith,
  ok, ◌==◌, eq_iff, inl, inr, ok-injective, some-injective, Bool-cases,
}
use georesearch_dsh.Dict.{get, put, get-put}
use georesearch_dsh.Contracts.Json.{Sha256Digest}
use georesearch_dsh.Contracts.Run.{RunRecord, RunState}
use georesearch_dsh.Contracts.State.{ProjectReducerState, ProjectStateFile}
use georesearch_dsh.Contracts.Event.{ProjectEvent}
use georesearch_dsh.Reducer.Apply.{apply_event}
use georesearch_dsh.Reducer.History.{Ensures}
use georesearch_dsh.Store.Disk.{Disk, Encoding}
use georesearch_dsh.Store.Snapshot.{rebuild, create_state_file}
use georesearch_dsh.Store.Synced.{IsSynced}
use georesearch_dsh.Runs.{RunIdentity, RunRecordCommitRequest, commit_run_record}
use georesearch_dsh.Runs.Lifecycle.{rank, rank-transition, is_terminal, last_update}
use georesearch_dsh.Runs.Recording.{recorded_run_was_allowed}
use georesearch_dsh.Service.Host.{Host}
use georesearch_dsh.Service.Guards.{Decision}
use georesearch_dsh.Service.Commit.{Proposal, Envelope, event_of, guard, commit_proposal}
use georesearch_dsh.Service.Committing.{committed_or_kept}
use georesearch_dsh.Service.Outcomes.{is_succeeded}
use georesearch_dsh.Service.Results.{ResultBundle, stored_run_fits}
use georesearch_dsh.Service.Resulting.{results_parts}

-- There is a run with this id, in this state.
abbrev pub RunIn : RunState → String → ProjectReducerState → Type 0
RunIn state k s = (run : RunRecord) × (get s.runs k ≡ some run) × (run.state ≡ state)

succeeded_eq : (s : RunState) → is_succeeded s ≡ true → s ≡ RunState.succeeded
succeeded_eq RunState.succeeded h = refl
succeeded_eq _ h = cc

fitting_states :
    (h : Host) (project_id : String) (run stored : RunRecord)
    → stored_run_fits h project_id run stored ≡ true
    → run.state ≡ stored.state
fitting_states h project_id run stored f =
    succeeded_eq run.state (ground (arith, f)) ∙ sym (succeeded_eq stored.state (ground (arith, f)))

results_keep :
    (h : Host) (project_id : String) (s : ProjectReducerState) (b : ResultBundle) (k : String)
    (state : RunState)
    → RunIn state k s
    → guard h project_id (Proposal.results b) s ≡ ok Decision.write
    → RunIn state k (record s { runs = put s.runs b.run.run_id b.run })
unfolding guard
results_keep h project_id s b k state (run, found, same) g =
    let parts = results_parts h project_id b s _ g in
    elim (Bool-cases (b.run.run_id == k)) [
      | inl e ↦
          let one : some parts.stored ≡ some run =
            sym parts.found ∙ ap (get s.runs) ((eq_iff _ _).0 e) ∙ found in
          (
            b.run,
            get-put s.runs b.run.run_id k b.run ∙ rw e refl,
            fitting_states h project_id b.run parts.stored parts.fits
                ∙ ap (λ (x : RunRecord). x.state) (some-injective one)
                ∙ same,
          )
      | inr e ↦ (run, get-put s.runs b.run.run_id k b.run ∙ rw e found, same)
    ]

write_keeps :
    (h : Host) (project_id : String) (s : ProjectReducerState) (time : String) (proposal : Proposal)
    (k : String) (state : RunState)
    → RunIn state k s
    → guard h project_id proposal s ≡ ok Decision.write
    → Ensures (RunIn state k) (apply_event s time (event_of proposal))
unfolding apply_event event_of
write_keeps h project_id s time (Proposal.results b) k state (run, found, same) g =
    results_keep h project_id s b k state (run, found, same) g
write_keeps h project_id s time _ k state (run, found, same) g = (run, found, same)

module _ (digest_identity : RunIdentity → Sha256Digest) (h : Host) (p : Encoding)
    (project_id run_id : String) where
  -- What happens to a project, from its state before to its state after, and how many of the commits
  -- are of `commitRunRecord` for the run: those, guarded commits of any record, and changes that do
  -- not touch the run. Each commit starts from a disk that agrees with its log.
  pub data RunPath : ProjectReducerState → ProjectReducerState → ℕ → Type 0 where
    stop : {s : ProjectReducerState} → RunPath s s 0
    updates :
        {s t : ProjectReducerState} {n : ℕ} (disk : Disk) (events : List ProjectEvent)
        (latest : ProjectEvent) (r : RunRecordCommitRequest) (time : String) (f : ProjectStateFile)
        → IsSynced p project_id disk events latest s
        → r.run.run_id ≡ run_id
        → (commit_run_record digest_identity p project_id r time disk).0 ≡ ok f
        → RunPath f.state t n
        → RunPath s t (suc n)
    commits :
        {s t : ProjectReducerState} {n : ℕ} (disk : Disk) (events : List ProjectEvent)
        (latest : ProjectEvent) (e : Envelope) (proposal : Proposal) (time : String)
        (f : ProjectStateFile)
        → IsSynced p project_id disk events latest s
        → (commit_proposal h p project_id e proposal time disk).0 ≡ ok f
        → RunPath f.state t n
        → RunPath s t n
    passes :
        {s s' t : ProjectReducerState} {n : ℕ}
        → get s'.runs run_id ≡ get s.runs run_id
        → RunPath s' t n
        → RunPath s t n

  updated :
      (s : ProjectReducerState) (state : RunState) (disk : Disk) (events : List ProjectEvent)
      (latest : ProjectEvent) (r : RunRecordCommitRequest) (time : String) (f : ProjectStateFile)
      → IsSynced p project_id disk events latest s
      → r.run.run_id ≡ run_id
      → RunIn state run_id s
      → (commit_run_record digest_identity p project_id r time disk).0 ≡ ok f
      → RunIn r.run.state run_id f.state × (rank r.run.state < rank state)
  updated s state disk events latest r time f synced named (run, found, same) done =
      let (made, cases) =
        recorded_run_was_allowed digest_identity p project_id disk events latest s synced r time f
          done in
      (
        (
          r.run,
          ap (λ (x : ProjectReducerState). get x.runs run_id) made
              ∙ get-put s.runs r.run.run_id run_id r.run
              ∙ rw ((eq_iff r.run.run_id run_id).1 named) refl,
          refl,
        ),
        elim cases [
          | inl (absent, starting) ↦ cc (absent, found, ap (get s.runs) named)
          | inr (existing, present, identity, allowed) ↦
              subst (λ x. rank r.run.state < rank x)
                (ap (λ (x : RunRecord). x.state)
                    (some-injective (sym present ∙ ap (get s.runs) named ∙ found))
                  ∙ same)
                (rank-transition existing.state r.run.state allowed)
        ],
      )

  committed :
      (s : ProjectReducerState) (state : RunState) (disk : Disk) (events : List ProjectEvent)
      (latest : ProjectEvent) (e : Envelope) (proposal : Proposal) (time : String)
      (f : ProjectStateFile)
      → IsSynced p project_id disk events latest s
      → RunIn state run_id s
      → (commit_proposal h p project_id e proposal time disk).0 ≡ ok f
      → RunIn state run_id f.state
  unfolding rebuild create_state_file
  committed s state disk events latest e proposal time f synced there done =
      elim (committed_or_kept h p project_id disk events latest s synced e proposal time f done).1 [
        | inl (kept, same) ↦
            subst (λ (g : ProjectStateFile). RunIn state run_id g.state)
              (ok-injective (ap (λ r. r.0) (sym same) ∙ done)) there
        | inr (written, applied) ↦
            subst (Ensures (RunIn state run_id)) applied
              (write_keeps h project_id s time proposal run_id state there written)
      ]

  RunPath-rank :
      {s t : ProjectReducerState} {n : ℕ} (state : RunState)
      → RunIn state run_id s
      → RunPath s t n
      → (final : RunState) × RunIn final run_id t × (n + rank final ≤ rank state)
  RunPath-rank {s} state there stop = (state, there, omega arith)
  RunPath-rank {s} state there (updates disk events latest r time f synced named done rest) =
      let (next, lower) = updated s state disk events latest r time f synced named there done in
      let (final, found, bound) = RunPath-rank r.run.state next rest in
      (final, found, omega (arith, lower, bound))
  RunPath-rank {s} state there (commits disk events latest e proposal time f synced done rest) =
      RunPath-rank state (committed s state disk events latest e proposal time f synced there done)
        rest
  RunPath-rank {s} state (run, found, same) (passes untouched rest) =
      RunPath-rank state (run, untouched ∙ found, same) rest

  -- A run that is on record as starting is updated at most three times by `commitRunRecord`, in
  -- whatever order with guarded commits of any record and with changes that do not touch the run, if
  -- every commit finds a disk that agrees with its log. The run stays on record, and after three
  -- updates it is in a terminal state.
  pub three_updates_at_most :
      (s t : ProjectReducerState) (n : ℕ)
      → RunIn RunState.starting run_id s
      → RunPath s t n
      → (n ≤ 3)
        × ((final : RunState) × RunIn final run_id t × ((n ≢ 3) ⊎ (is_terminal final ≡ true)))
  three_updates_at_most s t n there run =
      let (final, found, bound) = RunPath-rank RunState.starting there run in
      (omega (arith, bound), (final, found, last_update final n bound))
