-- ===== src/Store/Synced.antt =====
-- A project whose snapshot agrees with its log, and one whose snapshot lies behind (store.ts).
use mathlib.Core.List.{append-nil}
use georesearch_dsh.Prelude.{
  ℕ, ◌<◌, String, ◌≡◌, ap, ◌∙◌, Bool, true, false, Option, none, some, List, [], ◌∷◌, ◌++◌, arith,
  eq_refl, length, ok, ltb,
}
use georesearch_dsh.Contracts.State.{ProjectReducerState, ProjectStateFile}
use georesearch_dsh.Contracts.Event.{ProjectEvent}
use georesearch_dsh.Store.Disk.{Line, state_file, LogFile, Disk, Encoding, is_sha256_digest}
use georesearch_dsh.Store.Log.{
  parse_lines, read_event_log, read_tail, torn, is_whole, tail_line, separated, replay_events,
}
use georesearch_dsh.Store.Snapshot.{
  last, rebuild, body_of, create_state_file, parse_state_file, read_snapshot, settle, settle_read,
  read_consistent_locked,
}
use georesearch_dsh.Store.Chain.{same_hash_refl, parse_lines-last}

-- The log, whose last line may lack its newline, reads as `events`, of which `latest` is the last, and they replay to `state`.
pub record IsLog (p : Encoding) (project_id : String) (log : LogFile) (events : List ProjectEvent)
    (latest : ProjectEvent) (state : ProjectReducerState) : Type 0 where
  pub whole : is_whole log.tail ≡ true
  pub parsed : parse_lines p 1 none (log.lines ++ tail_line log.tail) ≡ ok events
  pub final : last events ≡ some latest
  pub replayed : replay_events project_id events ≡ ok state

-- Besides, `state.json` is the state file that the events make.
pub record IsSynced (p : Encoding) (project_id : String) (disk : Disk) (events : List ProjectEvent)
    (latest : ProjectEvent) (state : ProjectReducerState) : Type 0 where
  pub logged : IsLog p project_id disk.log events latest state
  pub snapshot : disk.state ≡ some (state_file 1 (rebuild p project_id events latest state))

-- There is no snapshot, or its last event comes before `latest`.
abbrev pub IsBehind : ProjectEvent → Option ProjectStateFile → Type 0
IsBehind latest none = Unit
IsBehind latest (some f) = f.last_event_seq < latest.seq

lt→ltb : (a b : ℕ) → a < b → ltb a b ≡ true
lt→ltb a b h = ground arith

length_of_last :
    (events : List ProjectEvent) (e : ProjectEvent) → last events ≡ some e → 0 < length events
length_of_last [] e h = cc
length_of_last (x ∷ xs) e h = omega arith

tail_reads :
    (p : Encoding) (truncate : Bool) (file : LogFile) (events : List ProjectEvent)
    → is_whole file.tail ≡ true
    → parse_lines p 1 none (file.lines ++ tail_line file.tail) ≡ ok events
    → read_event_log p truncate file
      ≡ (ok (record { events = events; truncated_tail = false }), file)
unfolding read_event_log
tail_reads p truncate file events whole parsed = go file.tail whole parsed
  where
    go :
        (o : Option Line)
        → is_whole o ≡ true
        → parse_lines p 1 none (file.lines ++ tail_line o) ≡ ok events
        → read_tail p truncate file o
          ≡ (ok (record { events = events; truncated_tail = false }), file)
    go none w k = rw (rw append-nil at k)
    go (some t) w k = ground (arith, w, k)

module _ (p : Encoding) (project_id : String) where
  -- What the store writes it reads back.
  parse-rebuild :
      (events : List ProjectEvent) (latest : ProjectEvent) (state : ProjectReducerState)
      → 0 < length events
      → latest.seq ≡ length events
      → is_sha256_digest latest.hash ≡ true
      → parse_state_file p (state_file 1 (rebuild p project_id events latest state)) project_id
        ≡ ok (rebuild p project_id events latest state)
  unfolding parse_state_file rebuild create_state_file
  parse-rebuild events latest state some_events place digest = ground (
    arith,
    eq_refl project_id,
    digest,
    p.digest_state_format (body_of (rebuild p project_id events latest state)),
    eq_refl (p.digest_state (body_of (rebuild p project_id events latest state))),
  )

  module _ (disk : Disk) (events : List ProjectEvent) (latest : ProjectEvent)
      (state : ProjectReducerState) (log : IsLog p project_id disk.log events latest state) where
    pub place : (latest.seq ≡ length events) × (is_sha256_digest latest.hash ≡ true)
    place =
        let (n, d) =
          parse_lines-last p 1 none (disk.log.lines ++ tail_line disk.log.tail) events latest
            log.parsed log.final in
        (omega (arith, n), d)

    pub read_log :
        (truncate : Bool)
        → read_event_log p truncate disk.log
          ≡ (ok (record { events = events; truncated_tail = false }), disk.log)
    unfolding read_event_log
    read_log truncate = tail_reads p truncate disk.log events log.whole log.parsed

    read_to_settle :
        (repair : Bool)
        → read_consistent_locked p project_id repair disk
          ≡ settle_read p repair
              (record { events = events; truncated_tail = false })
              latest
              state
              (rebuild p project_id events latest state)
              (read_snapshot p disk.state project_id)
              disk
    unfolding read_consistent_locked
    read_to_settle repair = rw (read_log repair, log.final, log.replayed)

    snapshot_reads :
        parse_state_file p (state_file 1 (rebuild p project_id events latest state)) project_id
        ≡ ok (rebuild p project_id events latest state)
    snapshot_reads =
        parse-rebuild events latest state (length_of_last events latest log.final) place.0 place.1

    pub snapshot_found :
        disk.state ≡ some (state_file 1 (rebuild p project_id events latest state))
        → read_snapshot p disk.state project_id
          ≡ ok (some (rebuild p project_id events latest state))
    unfolding read_snapshot
    snapshot_found snapshot = ap (λ o. read_snapshot p o project_id) snapshot ∙ rw snapshot_reads

    settle_same :
        (d : Disk) (repair truncated : Bool)
        → settle p repair
            (record { events = events; truncated_tail = truncated })
            latest
            state
            (rebuild p project_id events latest state)
            (some (rebuild p project_id events latest state))
            d
          ≡ (
            ok (record {
              state_file = rebuild p project_id events latest state;
              rebuilt_snapshot = false;
              truncated_tail = truncated;
            }),
            d,
          )
    unfolding settle rebuild create_state_file
    settle_same d repair truncated =
        ground (arith, same_hash_refl (some latest.hash), eq_refl (p.canonical_state state))

    -- A snapshot that agrees with the log is returned, and nothing is written.
    pub read_synced :
        (repair : Bool)
        → disk.state ≡ some (state_file 1 (rebuild p project_id events latest state))
        → read_consistent_locked p project_id repair disk ≡ (
          ok (record {
            state_file = rebuild p project_id events latest state;
            rebuilt_snapshot = false;
            truncated_tail = false;
          }),
          disk,
        )
    unfolding settle_read read_snapshot
    read_synced repair snapshot =
        read_to_settle repair ∙ rw (snapshot_found snapshot) (settle_same disk repair false)

    -- A snapshot that is missing, or that is valid and older than the log, is built anew.
    pub read_behind :
        (old : Option ProjectStateFile)
        → read_snapshot p disk.state project_id ≡ ok old
        → IsBehind latest old
        → read_consistent_locked p project_id true disk ≡ (
          ok (record {
            state_file = rebuild p project_id events latest state;
            rebuilt_snapshot = true;
            truncated_tail = false;
          }),
          record disk { state = some (state_file 1 (rebuild p project_id events latest state)) },
        )
    unfolding settle_read settle
    read_behind none h b = read_to_settle true ∙ rw h
    read_behind (some f) h b =
        read_to_settle true ∙ rw h (rw (lt→ltb f.last_event_seq latest.seq b))

    -- A torn piece behind the log is cut off, and the project is read as if it had not been there.
    pub read_torn :
        (t : Line)
        → torn t ≡ true
        → disk.state ≡ some (state_file 1 (rebuild p project_id events latest state))
        → read_consistent_locked p project_id true
            (record disk { log = record (separated disk.log) { tail = some t } })
          ≡ (
            ok (record {
              state_file = rebuild p project_id events latest state;
              rebuilt_snapshot = false;
              truncated_tail = true;
            }),
            record disk { log = separated disk.log },
          )
    unfolding read_consistent_locked read_event_log settle_read
    read_torn t torn_tail snapshot =
        rw (torn_tail, log.parsed, log.final, log.replayed, snapshot_found snapshot)
          (settle_same (record disk { log = separated disk.log }) true true)
