-- ===== src/Store/Commit.antt =====
-- Creating, loading and committing to a project (store.ts). The mutex of the project is held and was
-- not abandoned by another process; the time is the clock's. No read or write fails here; Store/Crashes
-- has the files that a write leaves that fails or dies.
use Prim.Native.Char.{code}
use georesearch_dsh.Prelude.{
  ℕ, ◌+◌, String, Bool, true, false, ◌&&◌, ◌||◌, not, Option, none, some, [], ◌∷◌, ◌==◌, nat_eq,
  ltb, leb, is_empty, if◌then◌else◌, Result, ok, err, Failure, geo_research_error, other_error,
  ◌>>=◌,
}
use georesearch_dsh.Contracts.Json.{Sha256Digest}
use georesearch_dsh.Contracts.Workspace.{ProjectBinding, WorkspaceBinding}
use georesearch_dsh.Contracts.State.{ProjectReducerState, ProjectStateFile}
use georesearch_dsh.Contracts.Event.{ProjectEventData, ProjectEvent, project_created, unsupported}
use georesearch_dsh.Reducer.{reduce_project_event}
use georesearch_dsh.Store.Disk.{Disk, state_file, Encoding, is_sha256_digest}
use georesearch_dsh.Store.Log.{EventLog, append_event, create_event, read_event_log}
use georesearch_dsh.Store.Snapshot.{ConsistencyResult, create_state_file, read_consistent_locked}

pub record ProjectCommitRequest : Type 0 where
  pub expected_generation : ℕ
  pub operation_key : Sha256Digest
  pub request_digest : Sha256Digest
  pub content : ProjectEventData

-- White space of `String.prototype.trim`
is_space : ℕ → Bool
is_space c =
    leb 9 c && leb c 13
    || nat_eq c 32
    || nat_eq c 160
    || nat_eq c 5760
    || leb 8192 c && leb c 8202
    || leb 8232 c && leb c 8233
    || nat_eq c 8239
    || nat_eq c 8287
    || nat_eq c 12288
    || nat_eq c 65279

-- `text.trim().length === 0`
unfoldable pub is_blank : String → Bool
unfolding is_space
is_blank String.[] = true
is_blank (String.◌∷◌ c s) = is_space (code c) && is_blank s

abbrev pub has_blank_type : ProjectEventData → Bool
has_blank_type (unsupported t _) = is_blank t
has_blank_type _ = false

unfoldable pub request_valid : ProjectCommitRequest → Bool
request_valid r =
    ltb 0 r.expected_generation
    && is_sha256_digest r.operation_key
    && is_sha256_digest r.request_digest
    && not (has_blank_type r.content)

abbrev pub generation_conflict : Failure
generation_conflict = geo_research_error "PROJECT_GENERATION_CONFLICT"

abbrev pub binding_mismatch : Failure
binding_mismatch = geo_research_error "PROJECT_BINDING_MISMATCH"

-- The disk between the two writes of a commit: the event is in the log, the snapshot is the old one.
unfoldable pub appended : Disk → ProjectEvent → Disk
appended disk event = record disk { log = append_event disk.log event }

module _ (p : Encoding) where
  -- The event of a commit on the current state.
  unfoldable pub next_event : ProjectStateFile → ProjectCommitRequest → String → ProjectEvent
  next_event current r time = create_event p (record {
    event_schema_version = 1;
    reducer_version = 1;
    seq = current.last_event_seq + 1;
    time = time;
    operation_key = r.operation_key;
    request_digest = r.request_digest;
    content = r.content;
    previous_hash = current.last_event_hash;
  })

  unfoldable pub next_state_file :
      String → ProjectStateFile → ProjectEvent → ProjectReducerState → ProjectStateFile
  next_state_file project_id current event state =
      create_state_file p project_id (current.generation + 1) event.seq (some event.hash) state

  write_commit :
      String
      → ProjectStateFile
      → ProjectEvent
      → Result ProjectReducerState
      → Disk
      → Result ProjectStateFile × Disk
  unfolding appended next_state_file
  write_commit project_id current event (err e) disk = (err e, disk)
  write_commit project_id current event (ok state) disk =
      let next = next_state_file project_id current event state in
      (ok next, record (appended disk event) { state = some (state_file 1 next) })

  unfoldable pub commit_locked :
      String
      → ProjectStateFile
      → ProjectCommitRequest
      → String
      → Disk
      → Result ProjectStateFile × Disk
  unfolding write_commit next_event
  commit_locked project_id current r time disk =
      if nat_eq current.generation r.expected_generation
      then write_commit project_id current (next_event current r time)
          (reduce_project_event (some current.state) (next_event current r time)) disk
      else (err generation_conflict, disk)

  commit_current :
      String
      → ProjectCommitRequest
      → String
      → Result ConsistencyResult
      → Disk
      → Result ProjectStateFile × Disk
  unfolding commit_locked request_valid
  commit_current project_id r time (err e) disk = (err e, disk)
  commit_current project_id r time (ok c) disk =
      if request_valid r
      then commit_locked project_id c.state_file r time disk
      else (err other_error, disk)

  unfoldable pub commit :
      String → ProjectCommitRequest → String → Disk → Result ProjectStateFile × Disk
  unfolding commit_current
  commit project_id r time disk =
      let (current, disk') = read_consistent_locked p project_id true disk in
      commit_current project_id r time current disk'

  abbrev loaded : Result ConsistencyResult → Result ProjectStateFile
  loaded r = r >>= λ c. ok c.state_file

  unfoldable pub load : String → Disk → Result ProjectStateFile × Disk
  load project_id disk =
      let (r, disk') = read_consistent_locked p project_id true disk in (loaded r, disk')

  -- The events and the snapshot of a new project.
  unfoldable pub initial_project_binding : String → String → String → ProjectBinding
  initial_project_binding project_id workspace_id time = record {
    project_id = project_id;
    binding_id = p.binding_id project_id;
    workspace_ids = workspace_id ∷ [];
    created_at = time;
    updated_at = time;
  }

  unfoldable pub creation_event :
      String → WorkspaceBinding → Sha256Digest → Sha256Digest → String → ProjectEvent
  unfolding initial_project_binding
  creation_event project_id binding operation_key request_digest time = create_event p (record {
    event_schema_version = 1;
    reducer_version = 1;
    seq = 1;
    time = time;
    operation_key = operation_key;
    request_digest = request_digest;
    content =
        project_created (initial_project_binding project_id binding.workspace_id time) binding;
    previous_hash = none;
  })

  write_creation :
      String → ProjectEvent → Result ProjectReducerState → Disk → Result ProjectStateFile × Disk
  unfolding appended
  write_creation project_id event (err e) disk = (err e, disk)
  write_creation project_id event (ok state) disk =
      let file = create_state_file p project_id 1 event.seq (some event.hash) state in
      (ok file, record (appended disk event) { state = some (state_file 1 file) })

  abbrev has_file {ℓ} : {A : Type ℓ} → Option A → Bool
  has_file none = false
  has_file (some t) = true

  create_on : String → ProjectEvent → Result EventLog → Disk → Result ProjectStateFile × Disk
  unfolding write_creation
  create_on project_id event (err e) disk = (err e, disk)
  create_on project_id event (ok log) disk =
      if not (is_empty log.events)
      then (err binding_mismatch, disk)
      else write_creation project_id event (reduce_project_event none event) disk

  -- The project's id is a portable identifier: `assertId` has passed.
  unfoldable pub create_project :
      String
      → WorkspaceBinding
      → Sha256Digest
      → Sha256Digest
      → String
      → Disk
      → Result ProjectStateFile × Disk
  unfolding create_on creation_event
  create_project project_id binding operation_key request_digest time disk =
      if not (binding.project_id == project_id)
      then (err other_error, disk)
      else if has_file disk.state
      then (err binding_mismatch, disk)
      else create_on project_id
          (creation_event project_id binding operation_key request_digest time)
          (read_event_log p false disk.log).0 disk
