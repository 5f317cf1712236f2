-- ===== src/Runs.antt =====
-- packages/project-service/src/index.ts: `commitRunRecord`, which guards every change of a run.
pub mod Formal
pub mod Lifecycle
pub mod Recording
use georesearch_dsh.Prelude.{
  ℕ, String, Bool, true, false, ◌&&◌, not, Option, none, some, List, ◌==◌, if◌then◌else◌, Result,
  ok, err, Failure, geo_research_error, other_error, ◌>>=◌,
}
use georesearch_dsh.Dict.{get}
use georesearch_dsh.Contracts.Json.{Sha256Digest}
use georesearch_dsh.Contracts.Workspace.{CanonicalPathIdentity}
use georesearch_dsh.Contracts.Run.{
  RunKind, RunState, RunRecord, RunResourceLimits, RunSandboxRecord, RunApprovalAudit,
}
use georesearch_dsh.Contracts.State.{ProjectReducerState, ProjectStateFile}
use georesearch_dsh.Contracts.Event.{ProjectEventData, run_recorded, run_updated}
use georesearch_dsh.Store.Disk.{Disk, Encoding}
use georesearch_dsh.Store.Commit.{ProjectCommitRequest, commit, load}
use georesearch_dsh.Runs.Formal.{assert_formal_run_binding}

-- The transitions that `validRunTransition` allows.
unfoldable pub valid_run_transition : RunState → RunState → Bool
valid_run_transition RunState.starting RunState.running = true
valid_run_transition RunState.starting RunState.collecting = true
valid_run_transition RunState.starting RunState.recovery_required = true
valid_run_transition RunState.running RunState.collecting = true
valid_run_transition RunState.running RunState.recovery_required = true
valid_run_transition RunState.collecting RunState.succeeded = true
valid_run_transition RunState.collecting RunState.failed = true
valid_run_transition RunState.collecting RunState.cancelled = true
valid_run_transition RunState.collecting RunState.recovery_required = true
valid_run_transition _ _ = false

-- What `runIdentityDigest` takes its digest over.
pub record RunIdentity : Type 0 where
  pub run_id : String
  pub kind : RunKind
  pub project_id : String
  pub workspace_id : String
  pub workspace_binding_version : ℕ
  pub experiment_spec_digest : Sha256Digest
  pub source_tree_digest : Sha256Digest
  pub environment_digest : Sha256Digest
  pub dataset_digests : List Sha256Digest
  pub seed : Option ℕ
  pub argv : List String
  pub argv_digest : Sha256Digest
  pub cwd : CanonicalPathIdentity
  pub launch_id : String
  pub resource_limits : RunResourceLimits
  pub stdout_path : String
  pub stderr_path : String
  pub sandbox : RunSandboxRecord
  pub approval : Option RunApprovalAudit

unfoldable pub run_identity : RunRecord → RunIdentity
run_identity run = record {
  run_id = run.run_id;
  kind = run.kind;
  project_id = run.project_id;
  workspace_id = run.workspace_id;
  workspace_binding_version = run.workspace_binding_version;
  experiment_spec_digest = run.experiment_spec_digest;
  source_tree_digest = run.source_tree_digest;
  environment_digest = run.environment_digest;
  dataset_digests = run.dataset_digests;
  seed = run.seed;
  argv = run.argv;
  argv_digest = run.argv_digest;
  cwd = run.cwd;
  launch_id = run.launch_id;
  resource_limits = run.resource_limits;
  stdout_path = run.stdout_path;
  stderr_path = run.stderr_path;
  sandbox = run.sandbox;
  approval = run.approval;
}

-- The record has been parsed.
pub record RunRecordCommitRequest : Type 0 where
  pub expected_generation : ℕ
  pub operation_key : Sha256Digest
  pub request_digest : Sha256Digest
  pub run : RunRecord
  pub initial : Bool

abbrev pub run_state_conflict : Failure
run_state_conflict = geo_research_error "RUN_STATE_CONFLICT"

abbrev pub is_starting : RunState → Bool
is_starting RunState.starting = true
is_starting _ = false

abbrev is_formal : RunKind → Bool
is_formal RunKind.formal = true
is_formal RunKind.local_test = false

unfoldable pub run_request : RunRecordCommitRequest → ProjectCommitRequest
run_request r = record {
  expected_generation = r.expected_generation;
  operation_key = r.operation_key;
  request_digest = r.request_digest;
  content = if r.initial then run_recorded r.run else run_updated r.run;
}

-- `digest_identity` is `digestJson` on the identity of a run.
module _ (digest_identity : RunIdentity → Sha256Digest) where
  abbrev pub initial_allowed :
      ProjectReducerState → RunRecord → Option RunRecord → Result (Unit {0})
  initial_allowed s run (some existing) = err run_state_conflict
  initial_allowed s run none =
      if not (is_starting run.state)
      then err run_state_conflict
      else if is_formal run.kind
      then assert_formal_run_binding s run
      else ok tt

  abbrev pub update_allowed : RunRecord → Option RunRecord → Result (Unit {0})
  update_allowed run none = err (geo_research_error "RUN_NOT_FOUND")
  update_allowed run (some existing) =
      if not (digest_identity (run_identity existing) == digest_identity (run_identity run))
      then err run_state_conflict
      else if valid_run_transition existing.state run.state
      then ok tt
      else err run_state_conflict

  -- The guard of `commitRunRecord` on the state that it has loaded.
  unfoldable pub run_allowed : ProjectReducerState → RunRecordCommitRequest → Result (Unit {0})
  run_allowed s r =
      if r.initial
      then initial_allowed s r.run (get s.runs r.run.run_id)
      else update_allowed r.run (get s.runs r.run.run_id)

  module _ (p : Encoding) where
    abbrev commit_allowed :
        String
        → RunRecordCommitRequest
        → String
        → Result (Unit {0})
        → Disk
        → Result ProjectStateFile × Disk
    commit_allowed project_id r time (err e) disk = (err e, disk)
    commit_allowed project_id r time (ok u) disk = commit p project_id (run_request r) time disk

    abbrev pub commit_on :
        String
        → RunRecordCommitRequest
        → String
        → Result ProjectStateFile
        → Disk
        → Result ProjectStateFile × Disk
    commit_on project_id r time (err e) disk = (err e, disk)
    commit_on project_id r time (ok current) disk =
        commit_allowed project_id r time (run_allowed current.state r) disk

    -- No other commit runs between the load and the commit.
    unfoldable pub commit_run_record :
        String → RunRecordCommitRequest → String → Disk → Result ProjectStateFile × Disk
    commit_run_record project_id r time disk =
        if not (r.run.project_id == project_id)
        then (err other_error, disk)
        else let (current, disk') = load p project_id disk in
          commit_on project_id r time current disk'
