-- ===== src/Store/Snapshot.antt =====
-- The snapshot `state.json`, and its agreement with the event log (store.ts).
use georesearch_dsh.Prelude.{
  ℕ, String, Bool, true, false, ◌&&◌, ◌||◌, not, Option, none, some, List, [], ◌∷◌, ◌==◌, nat_eq,
  ltb, length, is_empty, if◌then◌else◌, Result, ok, err, Failure, geo_research_error, other_error,
  ◌>>=◌,
}
use georesearch_dsh.Dict.{Dict, or_empty}
use georesearch_dsh.Contracts.Json.{Sha256Digest}
use georesearch_dsh.Contracts.State.{ProjectReducerState, ProjectStateFile}
use georesearch_dsh.Contracts.Event.{ProjectEvent}
use georesearch_dsh.Store.Disk.{
  StateText, state_file, misfit, not_object, not_json, StateBody, Disk, Encoding, is_sha256_digest,
}
use georesearch_dsh.Store.Log.{
  EventLog, read_event_log, replay_events, recovery_required, same_hash,
}

abbrev pub snapshot_inconsistent : Failure
snapshot_inconsistent = geo_research_error "PROJECT_SNAPSHOT_INCONSISTENT"

abbrev pub body_of : ProjectStateFile → StateBody
body_of f = record {
  project_id = f.project_id;
  generation = f.generation;
  last_event_seq = f.last_event_seq;
  last_event_hash = f.last_event_hash;
  state = f.state;
}

abbrev lacks : {V : Type 0} → Option (Dict V) → Bool
lacks none = true
lacks (some m) = false

-- The map is missing in the snapshot, and the replayed one has entries.
abbrev lacks_entries : {V : Type 0} → Option (Dict V) → Option (Dict V) → Bool
lacks_entries old new = lacks old && not (is_empty (or_empty new))

any_missing : ProjectReducerState → Bool
any_missing s =
    lacks s.sources
    || lacks s.evidence
    || lacks s.repository_audits
    || lacks s.reproduction_plans
    || lacks s.reproduction_test_specs
    || lacks s.reproduction_reports
    || lacks s.geodata_reports
    || lacks s.dataset_manifests
    || lacks s.experiment_specs
    || lacks s.experiment_amendments
    || lacks s.results
    || lacks s.validation_plans
    || lacks s.validation_reports
    || lacks s.review_records
    || lacks s.claims
    || lacks s.writing_packets
    || lacks s.manuscripts
    || lacks s.manuscript_audits

missing_entries : ProjectReducerState → ProjectReducerState → Bool
missing_entries s r =
    lacks_entries s.sources r.sources
    || lacks_entries s.evidence r.evidence
    || lacks_entries s.repository_audits r.repository_audits
    || lacks_entries s.reproduction_plans r.reproduction_plans
    || lacks_entries s.reproduction_test_specs r.reproduction_test_specs
    || lacks_entries s.reproduction_reports r.reproduction_reports
    || lacks_entries s.geodata_reports r.geodata_reports
    || lacks_entries s.dataset_manifests r.dataset_manifests
    || lacks_entries s.experiment_specs r.experiment_specs
    || lacks_entries s.experiment_amendments r.experiment_amendments
    || lacks_entries s.results r.results
    || lacks_entries s.validation_plans r.validation_plans
    || lacks_entries s.validation_reports r.validation_reports
    || lacks_entries s.review_records r.review_records
    || lacks_entries s.claims r.claims
    || lacks_entries s.writing_packets r.writing_packets
    || lacks_entries s.manuscripts r.manuscripts
    || lacks_entries s.manuscript_audits r.manuscript_audits

-- `for (const key of missing) migrated[key] = {}`
migrated : ProjectReducerState → ProjectReducerState
migrated s = record s {
  sources = some (or_empty s.sources);
  evidence = some (or_empty s.evidence);
  repository_audits = some (or_empty s.repository_audits);
  reproduction_plans = some (or_empty s.reproduction_plans);
  reproduction_test_specs = some (or_empty s.reproduction_test_specs);
  reproduction_reports = some (or_empty s.reproduction_reports);
  geodata_reports = some (or_empty s.geodata_reports);
  dataset_manifests = some (or_empty s.dataset_manifests);
  experiment_specs = some (or_empty s.experiment_specs);
  experiment_amendments = some (or_empty s.experiment_amendments);
  results = some (or_empty s.results);
  validation_plans = some (or_empty s.validation_plans);
  validation_reports = some (or_empty s.validation_reports);
  review_records = some (or_empty s.review_records);
  claims = some (or_empty s.claims);
  writing_packets = some (or_empty s.writing_packets);
  manuscripts = some (or_empty s.manuscripts);
  manuscript_audits = some (or_empty s.manuscript_audits);
}

module _ (p : Encoding) where
  open p use {digest_state, canonical_state}

  unfoldable pub create_state_file :
      String → ℕ → ℕ → Option Sha256Digest → ProjectReducerState → ProjectStateFile
  create_state_file project_id generation seq hash state =
      let body : StateBody = record {
        project_id = project_id;
        generation = generation;
        last_event_seq = seq;
        last_event_hash = hash;
        state = state;
      } in
      record {
        project_id = project_id;
        generation = generation;
        last_event_seq = seq;
        last_event_hash = hash;
        state = state;
        digest = digest_state body;
      }

  unfoldable pub is_legacy_additive_snapshot : ProjectReducerState → ProjectReducerState → Bool
  unfolding any_missing missing_entries migrated
  is_legacy_additive_snapshot snapshot replayed =
      if not (any_missing snapshot)
      then false
      else if missing_entries snapshot replayed
      then false
      else canonical_state (migrated snapshot) == canonical_state replayed

  abbrev pub hash_valid : Option Sha256Digest → Bool
  hash_valid none = false
  hash_valid (some h) = is_sha256_digest h

  unfoldable pub parse_state_file : StateText → String → Result ProjectStateFile
  parse_state_file (state_file schema_version f) project_id =
      if not (nat_eq schema_version 1 && f.project_id == project_id)
      then err snapshot_inconsistent
      else if not (
          ltb 0 f.generation
          && ltb 0 f.last_event_seq
          && hash_valid f.last_event_hash
          && is_sha256_digest f.digest)
      then err snapshot_inconsistent
      else if digest_state (body_of f) == f.digest
      then ok f
      else err snapshot_inconsistent
  parse_state_file misfit project_id = err snapshot_inconsistent
  parse_state_file not_object project_id = err recovery_required
  parse_state_file not_json project_id = err other_error

  unfoldable pub read_snapshot : Option StateText → String → Result (Option ProjectStateFile)
  unfolding parse_state_file
  read_snapshot none project_id = ok none
  read_snapshot (some t) project_id = parse_state_file t project_id >>= λ f. ok (some f)

pub record ConsistencyResult : Type 0 where
  pub state_file : ProjectStateFile
  pub rebuilt_snapshot : Bool
  pub truncated_tail : Bool

abbrev pub last {ℓ} : {A : Type ℓ} → List A → Option A
last [] = none
last (x ∷ []) = some x
last (x ∷ y ∷ ys) = last (y ∷ ys)

module _ (p : Encoding) where
  open p use {canonical_state}

  -- The state file that the events make.
  unfoldable pub rebuild :
      String → List ProjectEvent → ProjectEvent → ProjectReducerState → ProjectStateFile
  rebuild project_id events latest replayed =
      create_state_file p project_id (length events) latest.seq (some latest.hash) replayed

  abbrev pub write_rebuilt : Bool → Bool → ProjectStateFile → Disk → Result ConsistencyResult × Disk
  write_rebuilt repair truncated rebuilt disk =
      if repair
      then (
        ok (record { state_file = rebuilt; rebuilt_snapshot = true; truncated_tail = truncated }),
        record disk { state = some (state_file 1 rebuilt) },
      )
      else (
        ok (record { state_file = rebuilt; rebuilt_snapshot = false; truncated_tail = truncated }),
        disk,
      )

  -- `readConsistentLocked` from the point where the snapshot has been read.
  unfoldable pub settle :
      Bool
      → EventLog
      → ProjectEvent
      → ProjectReducerState
      → ProjectStateFile
      → Option ProjectStateFile
      → Disk
      → Result ConsistencyResult × Disk
  settle repair log latest replayed rebuilt none disk =
      write_rebuilt repair log.truncated_tail rebuilt disk
  settle repair log latest replayed rebuilt (some f) disk =
      let identity =
        same_hash f.last_event_hash (some latest.hash) && nat_eq f.generation (length log.events) in
      let same_state = canonical_state f.state == canonical_state replayed in
      if ltb f.last_event_seq latest.seq
      then write_rebuilt repair log.truncated_tail rebuilt disk
      else if ltb latest.seq f.last_event_seq || ltb (length log.events) f.generation
      then (err snapshot_inconsistent, disk)
      else if identity && not same_state && repair && is_legacy_additive_snapshot p f.state replayed
      then write_rebuilt repair log.truncated_tail rebuilt disk
      else if not identity || not same_state
      then (err snapshot_inconsistent, disk)
      else (
        ok (record {
          state_file = f;
          rebuilt_snapshot = false;
          truncated_tail = log.truncated_tail;
        }),
        disk,
      )

  unfoldable pub settle_read :
      Bool
      → EventLog
      → ProjectEvent
      → ProjectReducerState
      → ProjectStateFile
      → Result (Option ProjectStateFile)
      → Disk
      → Result ConsistencyResult × Disk
  unfolding settle
  settle_read repair log latest replayed rebuilt (err e) disk = (err e, disk)
  settle_read repair log latest replayed rebuilt (ok f) disk =
      settle repair log latest replayed rebuilt f disk

  unfoldable pub settle_replayed :
      String
      → Bool
      → EventLog
      → ProjectEvent
      → Result ProjectReducerState
      → Disk
      → Result ConsistencyResult × Disk
  unfolding settle_read rebuild read_snapshot
  settle_replayed project_id repair log latest (err e) disk = (err e, disk)
  settle_replayed project_id repair log latest (ok replayed) disk =
      settle_read repair log latest replayed (rebuild project_id log.events latest replayed)
        (read_snapshot p disk.state project_id) disk

  unfoldable pub settle_latest :
      String → Bool → EventLog → Option ProjectEvent → Disk → Result ConsistencyResult × Disk
  unfolding settle_replayed
  settle_latest project_id repair log none disk = (err recovery_required, disk)
  settle_latest project_id repair log (some latest) disk =
      settle_replayed project_id repair log latest (replay_events project_id log.events) disk

  unfoldable pub settle_log :
      String → Bool → Result EventLog → Disk → Result ConsistencyResult × Disk
  unfolding settle_latest
  settle_log project_id repair (err e) disk = (err e, disk)
  settle_log project_id repair (ok log) disk =
      settle_latest project_id repair log (last log.events) disk

  unfoldable pub read_consistent_locked : String → Bool → Disk → Result ConsistencyResult × Disk
  unfolding settle_log
  read_consistent_locked project_id repair disk =
      let (r, file) = read_event_log p repair disk.log in
      settle_log project_id repair r (record disk { log = file })
