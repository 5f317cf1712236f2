-- ===== src/Store/Durability.antt =====
-- What a commit does to a project on disk, and what a crash during a commit leaves (store.ts).
use mathlib.Core.List.{append-nil}
use georesearch_dsh.Prelude.{
  ◌+◌, ◌<◌, String, ◌≡◌, ◌≢◌, ◌⊎◌, refl, sym, ap, ◌∙◌, true, false, none, some, List, [], ◌∷◌, ◌++◌,
  arith, ◌==◌, eq_iff, eq_refl, nat_eq, nat_eq_refl, length, length-append, if◌then◌else◌,
  Bool-cases, inl, inr, ok, err, Failure, other_error,
}
use georesearch_dsh.Contracts.State.{ProjectReducerState, ProjectStateFile}
use georesearch_dsh.Contracts.Event.{ProjectEvent, ProjectEventData, unsupported}
use georesearch_dsh.Reducer.{reduce_project_event}
use georesearch_dsh.Store.Disk.{Line, entry, state_file, LogFile, Disk, Encoding, is_sha256_digest}
use georesearch_dsh.Store.Log.{
  parse_event, metadata_valid, has_type, create_event, append_event, torn, separated, parse_lines,
}
use georesearch_dsh.Store.Snapshot.{read_consistent_locked, rebuild, create_state_file}
use georesearch_dsh.Store.Commit.{
  ProjectCommitRequest, request_valid, is_blank, has_blank_type, next_event, next_state_file,
  appended, commit_locked, commit, load, generation_conflict,
}
use georesearch_dsh.Store.Chain.{
  same_hash_refl, last-append, last_hash, last_hash-last, parse_lines-append, replay_events-append,
}
use georesearch_dsh.Store.Synced.{
  IsLog, IsSynced, read_synced, read_behind, read_torn, place, snapshot_found,
}

not_empty_of_not_blank : (t : String) → is_blank t ≡ false → (t == "") ≡ false
unfolding is_blank
not_empty_of_not_blank t h = elim (Bool-cases (t == "")) [
  | inl e ↦ cc (h, ap is_blank ((eq_iff t "").0 e))
  | inr e ↦ e
]

has_type_of_not_blank : (c : ProjectEventData) → has_blank_type c ≡ false → has_type c ≡ true
has_type_of_not_blank (unsupported t j) h = rw (not_empty_of_not_blank t h)
has_type_of_not_blank _ h = refl

-- A project whose snapshot agrees with its log is loaded as it is, and nothing is written.
pub load_synced :
    (p : Encoding) (project_id : String) (disk : Disk) (events : List ProjectEvent)
    (latest : ProjectEvent) (state : ProjectReducerState)
    → IsSynced p project_id disk events latest state
    → load p project_id disk ≡ (ok (rebuild p project_id events latest state), disk)
unfolding load
load_synced p project_id disk events latest state synced =
    rw (read_synced p project_id disk events latest state synced.logged true synced.snapshot)

module _ (p : Encoding) (project_id : String) (disk : Disk) (events : List ProjectEvent)
    (latest : ProjectEvent) (state : ProjectReducerState)
    (synced : IsSynced p project_id disk events latest state) where
  abbrev current : ProjectStateFile
  current = rebuild p project_id events latest state

  -- If the process dies while it appends an event to a project whose snapshot agrees with its log, so
  -- that a piece of a line that is blank or no JSON is left behind the log,
  -- the next load cuts the piece off and returns the state as it was. The newline that was written
  -- first, if the log did not end with one, stays.
  pub torn_append_is_undone :
      (t : Line)
      → torn t ≡ true
      → load p project_id (record disk { log = record (separated disk.log) { tail = some t } })
        ≡ (ok current, record disk { log = separated disk.log })
  unfolding load
  torn_append_is_undone t h =
      rw (read_torn p project_id disk events latest state synced.logged t h synced.snapshot)

  commit_step :
      (r : ProjectCommitRequest) (time : String)
      → commit p project_id r time disk ≡ (
          if request_valid r
          then commit_locked p project_id current r time disk
          else (err other_error, disk))
  unfolding commit
  commit_step r time =
      rw (read_synced p project_id disk events latest state synced.logged true synced.snapshot)

  failed_locked :
      (r : ProjectCommitRequest) (time : String) (e : Failure)
      → (commit_locked p project_id current r time disk).0 ≡ err e
      → (commit_locked p project_id current r time disk).1 ≡ disk
  unfolding commit_locked
  failed_locked r time e h = ground arith

  -- A commit that is refused, on a project whose snapshot agrees with its log, because its request is
  -- not valid, because it is for another generation, or by the reducer, writes nothing. A write that
  -- fails is no refusal.
  pub failed_commit_writes_nothing :
      (r : ProjectCommitRequest) (time : String) (e : Failure)
      → (commit p project_id r time disk).0 ≡ err e
      → (commit p project_id r time disk).1 ≡ disk
  failed_commit_writes_nothing r time e h = elim (Bool-cases (request_valid r)) [
    | inl v ↦
        let step = commit_step r time ∙ rw v in
        ap (λ x. x.1) step ∙ failed_locked r time e (ap (λ x. x.0) (sym step) ∙ h)
    | inr v ↦ ap (λ x. x.1) (commit_step r time) ∙ rw v
  ]

  locked_state :
      (r : ProjectCommitRequest) (time : String) (f : ProjectStateFile)
      → (commit_locked p project_id current r time disk).0 ≡ ok f
      → reduce_project_event (some state) (next_event p current r time) ≡ ok f.state
  unfolding commit_locked next_state_file rebuild create_state_file
  locked_state r time f h = ground arith

  -- A commit that succeeds returns the state that the reducer makes of its event.
  pub committed_state :
      (r : ProjectCommitRequest) (time : String) (f : ProjectStateFile)
      → (commit p project_id r time disk).0 ≡ ok f
      → reduce_project_event (some state) (next_event p current r time) ≡ ok f.state
  committed_state r time f h = ground (arith, commit_step r time, locked_state r time f, h)

  -- A commit that succeeds is of a valid request for the current generation.
  pub committed_request :
      (r : ProjectCommitRequest) (time : String) (f : ProjectStateFile)
      → (commit p project_id r time disk).0 ≡ ok f
      → (request_valid r ≡ true) × (r.expected_generation ≡ length events)
  unfolding commit_locked rebuild create_state_file
  committed_request r time f h = ground (arith, commit_step r time, h)

  -- A valid request for another generation than that of a project whose snapshot agrees with its log
  -- is refused, and nothing is written.
  pub commit_conflict :
      (r : ProjectCommitRequest) (time : String)
      → request_valid r ≡ true
      → r.expected_generation ≢ length events
      → commit p project_id r time disk ≡ (err generation_conflict, disk)
  unfolding commit_locked rebuild create_state_file
  commit_conflict r time valid other =
      commit_step r time
      ∙ rw valid (conflict (Bool-cases (nat_eq (length events) r.expected_generation)))
    where
      conflict :
          (nat_eq (length events) r.expected_generation ≡ true)
            ⊎ (nat_eq (length events) r.expected_generation ≡ false)
          → commit_locked p project_id current r time disk ≡ (err generation_conflict, disk)
      conflict (inl e) = absurd (other (ground arith))
      conflict (inr e) = rw e

  module _ (r : ProjectCommitRequest) (time : String) (new : ProjectReducerState)
      (valid : request_valid r ≡ true) (expected : r.expected_generation ≡ length events)
      (utc : p.canonical_utc time ≡ true)
      (reduced : reduce_project_event (some state) (next_event p current r time) ≡ ok new) where
    abbrev event : ProjectEvent
    event = next_event p current r time

    abbrev next : ProjectStateFile
    next = next_state_file p project_id current event new

    abbrev committed : Disk
    committed = record { log = append_event disk.log event; state = some (state_file 1 next) }

    next-rebuild : next ≡ rebuild p project_id (events ++ event ∷ []) event new
    unfolding rebuild next_state_file create_state_file
    next-rebuild = rw (length-append events (event ∷ []))

    request_parts :
        (is_sha256_digest r.operation_key ≡ true)
        × (is_sha256_digest r.request_digest ≡ true)
        × (has_blank_type r.content ≡ false)
    unfolding request_valid
    request_parts = ground (arith, valid)

    event_metadata : metadata_valid p event (1 + length events) (last_hash none events) ≡ true
    unfolding metadata_valid next_event create_event rebuild create_state_file
    event_metadata = rw (last_hash-last none events synced.logged.final) (
        ground (
          arith,
          same_hash_refl (some latest.hash),
          request_parts,
          utc,
          has_type_of_not_blank r.content request_parts.2,
          p.digest_event_format event.body,
          place p project_id disk events latest state synced.logged,
        ))

    event_parses :
        parse_event p (entry event) (1 + length events) (last_hash none events) ≡ ok event
    unfolding parse_event next_event create_event
    event_parses = rw event_metadata (rw (eq_refl (p.digest_event event.body)))

    lines_parse :
        parse_lines p 1 none (separated disk.log).lines ≡ ok events
        → parse_lines p 1 none ((separated disk.log).lines ++ entry event ∷ [])
          ≡ ok (events ++ event ∷ [])
    lines_parse parsed =
        parse_lines-append p 1 none (separated disk.log).lines events event parsed event_parses

    IsLog-committed :
        IsLog p project_id (append_event disk.log event) (events ++ event ∷ []) event new
    unfolding append_event
    IsLog-committed = record {
      whole = refl;
      parsed = rw append-nil (lines_parse synced.logged.parsed);
      final = last-append events event;
      replayed =
          replay_events-append project_id events event state new synced.logged.replayed reduced;
    }

    -- The same holds of the log before the last newline is written.
    IsLog-unended :
        IsLog p project_id
          (record (separated disk.log) { tail = some (entry event) })
          (events ++ event ∷ [])
          event
          new
    IsLog-unended = record {
      whole = refl;
      parsed = lines_parse synced.logged.parsed;
      final = last-append events event;
      replayed = IsLog-committed.replayed;
    }

    IsSynced-committed : IsSynced p project_id committed (events ++ event ∷ []) event new
    IsSynced-committed = record {
      logged = IsLog-committed;
      snapshot = ap (λ f. some (state_file 1 f)) next-rebuild;
    }

    locked : commit_locked p project_id current r time disk ≡ (ok next, committed)
    unfolding commit_locked rebuild create_state_file
    locked = rw (expected, nat_eq_refl (length events), reduced)

    -- On a project whose snapshot agrees with its log, at a canonical time, a valid request for the
    -- current generation, on which the reducer succeeds, is committed: it
    -- returns the next state file, of the next generation, the snapshot agrees with the log again,
    -- and a later load returns the same file and writes nothing.
    pub commit_durable :
        (commit p project_id r time disk ≡ (ok next, committed))
        × IsSynced p project_id committed (events ++ event ∷ []) event new
        × (load p project_id committed ≡ (ok next, committed))
        × (next.generation ≡ length events + 1)
    unfolding next_state_file create_state_file rebuild
    commit_durable = (
      commit_step r time ∙ rw valid locked,
      IsSynced-committed,
      load_synced p project_id committed (events ++ event ∷ []) event new IsSynced-committed
          ∙ ap (λ f. (ok f, committed)) (sym next-rebuild),
      refl,
    )

    current_behind : current.last_event_seq < event.seq
    unfolding next_event create_event rebuild create_state_file
    current_behind = omega arith

    -- A log that has the event, while the snapshot is the old one, is read as the commit, and the
    -- snapshot is written.
    read_logged :
        (log : LogFile)
        → IsLog p project_id log (events ++ event ∷ []) event new
        → read_consistent_locked p project_id true (record disk { log = log }) ≡ (
          ok (record {
            state_file = rebuild p project_id (events ++ event ∷ []) event new;
            rebuilt_snapshot = true;
            truncated_tail = false;
          }),
          record { log = log; state = some (state_file 1 next) },
        )
    read_logged log logged =
        read_behind p project_id (record disk { log = log }) (events ++ event ∷ []) event new logged
          (some current)
          (snapshot_found p project_id disk events latest state synced.logged synced.snapshot)
          current_behind
        ∙ ap
            (λ f. (
              ok (record {
                state_file = rebuild p project_id (events ++ event ∷ []) event new;
                rebuilt_snapshot = true;
                truncated_tail = false;
              }),
              record { log = log; state = some (state_file 1 f) },
            ))
            (sym next-rebuild)

    pub read_appended : read_consistent_locked p project_id true (appended disk event) ≡ (
      ok (record {
        state_file = rebuild p project_id (events ++ event ∷ []) event new;
        rebuilt_snapshot = true;
        truncated_tail = false;
      }),
      committed,
    )
    unfolding appended
    read_appended = read_logged (append_event disk.log event) IsLog-committed

    pub read_unended :
        read_consistent_locked p project_id true
          (record disk { log = record (separated disk.log) { tail = some (entry event) } })
        ≡ (
          ok (record {
            state_file = rebuild p project_id (events ++ event ∷ []) event new;
            rebuilt_snapshot = true;
            truncated_tail = false;
          }),
          record {
            log = record (separated disk.log) { tail = some (entry event) };
            state = some (state_file 1 next);
          },
        )
    read_unended =
        read_logged (record (separated disk.log) { tail = some (entry event) }) IsLog-unended

    -- The disk that is left by reading it agrees with its log.
    pub IsSynced-unended :
        IsSynced p project_id
          (record {
            log = record (separated disk.log) { tail = some (entry event) };
            state = some (state_file 1 next);
          })
          (events ++ event ∷ [])
          event
          new
    IsSynced-unended = record {
      logged = IsLog-unended;
      snapshot = ap (λ f. some (state_file 1 f)) next-rebuild;
    }

    -- If the process dies between the two writes of such a commit (of a valid request for the current
    -- generation, on which the reducer succeeds, at a canonical time, on a project whose snapshot
    -- agrees with its log), the log has the event and the
    -- snapshot is old: the next load returns the state file of the commit, and leaves the disk as
    -- the commit would have.
    pub crashed_commit_is_completed : load p project_id (appended disk event) ≡ (ok next, committed)
    unfolding load
    crashed_commit_is_completed = rw read_appended (ap (λ f. (ok f, committed)) (sym next-rebuild))
