-- ===== src/Runs/Recording.antt =====
-- What `commitRunRecord` lets through.
use georesearch_dsh.Prelude.{
  String, ◌≡◌, ◌⊎◌, refl, sym, ◌∙◌, Bool, true, false, Option, none, some, List, eq_iff, arith,
  if◌then◌else◌, ok, err, ok-injective, inl, inr,
}
use georesearch_dsh.Dict.{get, put}
use georesearch_dsh.Contracts.Json.{Sha256Digest}
use georesearch_dsh.Contracts.Run.{RunRecord, RunState}
use georesearch_dsh.Contracts.State.{ProjectReducerState, ProjectStateFile}
use georesearch_dsh.Contracts.Event.{ProjectEvent, run_recorded, run_updated}
use georesearch_dsh.Reducer.{reduce_project_event}
use georesearch_dsh.Reducer.Apply.{apply_event}
use georesearch_dsh.Reducer.Step.{reduce-apply}
use georesearch_dsh.Store.Log.{create_event}
use georesearch_dsh.Store.Disk.{Disk, Encoding}
use georesearch_dsh.Store.Commit.{commit, next_event}
use georesearch_dsh.Store.Snapshot.{rebuild, create_state_file}
use georesearch_dsh.Store.Synced.{IsSynced}
use georesearch_dsh.Store.Durability.{load_synced, committed_state}
use georesearch_dsh.Runs.{
  RunIdentity, run_identity, RunRecordCommitRequest, run_state_conflict, is_starting,
  valid_run_transition, run_allowed, run_request, commit_run_record,
}
use georesearch_dsh.Runs.Lifecycle.{is_terminal, no_way_out}

refuses_terminal :
    (digest_identity : RunIdentity → Sha256Digest) (s : ProjectReducerState)
    (r : RunRecordCommitRequest) (existing : RunRecord)
    → get s.runs r.run.run_id ≡ some existing
    → is_terminal existing.state ≡ true
    → run_allowed digest_identity s r ≡ err run_state_conflict
unfolding run_allowed
refuses_terminal digest_identity s r existing found terminal =
    rw found (ground (arith, no_way_out existing.state r.run.state terminal))

run_content :
    (s : ProjectReducerState) (run : RunRecord) (time : String) (initial : Bool)
    → apply_event s time (if initial then run_recorded run else run_updated run)
      ≡ ok (record s { runs = put s.runs run.run_id run })
unfolding apply_event
run_content s run time true = refl
run_content s run time false = refl

-- The run is not on record, and it is starting.
abbrev pub IsNewRun : ProjectReducerState → RunRecord → Type 0
IsNewRun s run = (get s.runs run.run_id ≡ none) × (run.state ≡ RunState.starting)

-- The run is on record with the same identity, in a state that may be followed by the new one.
abbrev pub IsNextRun : (RunIdentity → Sha256Digest) → ProjectReducerState → RunRecord → Type 0
IsNextRun digest_identity s run =
    (existing : RunRecord) × (get s.runs run.run_id ≡ some existing)
    × (digest_identity (run_identity existing) ≡ digest_identity (run_identity run))
    × (valid_run_transition existing.state run.state ≡ true)

is_starting-eq : (s : RunState) → is_starting s ≡ true → s ≡ RunState.starting
is_starting-eq RunState.starting h = refl
is_starting-eq _ h = cc

allowed_cases :
    (digest_identity : RunIdentity → Sha256Digest) (s : ProjectReducerState)
    (r : RunRecordCommitRequest)
    → run_allowed digest_identity s r ≡ ok tt
    → IsNewRun s r.run ⊎ IsNextRun digest_identity s r.run
unfolding run_allowed
allowed_cases digest_identity s r h = go (get s.runs r.run.run_id) r.initial refl refl
  where
    go :
        (o : Option RunRecord) (initial : Bool)
        → get s.runs r.run.run_id ≡ o
        → r.initial ≡ initial
        → IsNewRun s r.run ⊎ IsNextRun digest_identity s r.run
    go none true found i = inl (found, is_starting-eq r.run.state (ground (arith, h)))
    go none false found i = ground (arith, h)
    go (some existing) true found i = ground (arith, h)
    go (some existing) false found i = inr (
      existing,
      found,
      (eq_iff (digest_identity (run_identity existing)) (digest_identity (run_identity r.run))).0
          (ground (arith, h)),
      ground (arith, h),
    )

module _ (digest_identity : RunIdentity → Sha256Digest) (p : Encoding) (project_id : String)
    (disk : Disk) (events : List ProjectEvent) (latest : ProjectEvent) (state : ProjectReducerState)
    (synced : IsSynced p project_id disk events latest state) where
  -- On a project whose snapshot agrees with its log, `commitRunRecord` refuses every record for a run
  -- that is in a terminal state, and writes nothing. The outputs of a run that has succeeded may
  -- still be written with its results, by another commit.
  pub terminal_run_is_final :
      (r : RunRecordCommitRequest) (time : String) (existing : RunRecord)
      → r.run.project_id ≡ project_id
      → get state.runs r.run.run_id ≡ some existing
      → is_terminal existing.state ≡ true
      → commit_run_record digest_identity p project_id r time disk ≡ (err run_state_conflict, disk)
  unfolding commit_run_record rebuild create_state_file
  terminal_run_is_final r time existing same found terminal = ground (
    arith,
    eq_iff r.run.project_id project_id,
    same,
    load_synced p project_id disk events latest state synced,
    refuses_terminal digest_identity state r existing found terminal,
  )

  loaded_allowed :
      (r : RunRecordCommitRequest) (time : String) (f : ProjectStateFile)
      → (commit_run_record digest_identity p project_id r time disk).0 ≡ ok f
      → (run_allowed digest_identity state r ≡ ok tt)
        × ((commit p project_id (run_request r) time disk).0 ≡ ok f)
  unfolding commit_run_record rebuild create_state_file
  loaded_allowed r time f h =
      ground (arith, h, load_synced p project_id disk events latest state synced)

  run_event :
      (r : RunRecordCommitRequest) (time : String) (t : ProjectReducerState)
      → reduce_project_event
          (some state)
          (next_event p (rebuild p project_id events latest state) (run_request r) time)
        ≡ ok t
      → t ≡ record state { runs = put state.runs r.run.run_id r.run }
  unfolding run_request next_event create_event
  run_event r time t h = ok-injective (
      sym h
      ∙ reduce-apply state
          (next_event p (rebuild p project_id events latest state) (run_request r) time)
      ∙ run_content state r.run time r.initial)

  -- If a run is recorded or updated on a project whose snapshot agrees with its log, the new state differs from the old one in this run alone. Either
  -- there was no such run and it is starting, or there was one with the same digest of its identity,
  -- and it passes from its state to that of the new record by a transition that is allowed.
  pub recorded_run_was_allowed :
      (r : RunRecordCommitRequest) (time : String) (f : ProjectStateFile)
      → (commit_run_record digest_identity p project_id r time disk).0 ≡ ok f
      → (f.state ≡ record state { runs = put state.runs r.run.run_id r.run })
        × (IsNewRun state r.run ⊎ IsNextRun digest_identity state r.run)
  recorded_run_was_allowed r time f h =
      let (allowed, done) = loaded_allowed r time f h in
      (
        run_event r time f.state (
            committed_state p project_id disk events latest state synced (run_request r) time f
              done),
        allowed_cases digest_identity state r allowed,
      )
