-- ===== src/Examples/Storing/Running.antt =====
-- A run that is recorded, on a project with one event.
use georesearch_dsh.Prelude.{
  ℕ, ◌≡◌, ◌≢◌, ◌⊎◌, ◌≤◌, refl, true, none, some, [], ◌∷◌, ok, err, Result,
}
use georesearch_dsh.Dict.{get, put}
use georesearch_dsh.Contracts.Json.{Sha256Digest}
use georesearch_dsh.Contracts.Run.{RunKind, RunState, RunRecord, RunSandboxRecord}
use georesearch_dsh.Contracts.State.{ProjectReducerState, ProjectStateFile}
use georesearch_dsh.Contracts.Event.{ProjectEvent}
use georesearch_dsh.Reducer.{reduce_project_event}
use georesearch_dsh.Reducer.Apply.{apply_event}
use georesearch_dsh.Store.Disk.{is_sha256_digest, Disk, entry, state_file}
use georesearch_dsh.Store.Log.{
  parse_lines, parse_event, create_event, read_event_log, replay_events,
}
use georesearch_dsh.Store.Snapshot.{rebuild, read_consistent_locked}
use georesearch_dsh.Store.Commit.{next_event, load, commit}
use georesearch_dsh.Store.Synced.{IsSynced}
use georesearch_dsh.Runs.{
  RunIdentity, RunRecordCommitRequest, run_request, run_state_conflict, valid_run_transition,
  run_allowed, commit_run_record,
}
use georesearch_dsh.Prelude.{false}
use georesearch_dsh.Store.Snapshot.{create_state_file}
use georesearch_dsh.Runs.Lifecycle.{is_terminal}
use georesearch_dsh.Service.Updating.{RunIn, RunPath, stop, updates, three_updates_at_most}
use georesearch_dsh.Examples.Records.{host}
use georesearch_dsh.Runs.Recording.{
  terminal_run_is_final, recorded_run_was_allowed, IsNewRun, IsNextRun,
}
use georesearch_dsh.Examples.Data.{digest_a, digest_b, now, encoding, created}
use georesearch_dsh.Examples.Storing.{creation, snapshot, disk, disk-IsSynced}

abbrev run : RunRecord
run = record {
  run_id = "r1";
  kind = RunKind.local_test;
  project_id = "p1";
  workspace_id = "w1";
  workspace_binding_version = 1;
  experiment_spec_digest = digest_a;
  source_tree_digest = digest_a;
  environment_digest = digest_a;
  dataset_digests = [];
  seed = none;
  argv = "true" ∷ [];
  argv_digest = digest_a;
  cwd = record { canonical_path = "/w1"; volume_identity = "v"; file_identity = "f" };
  state = RunState.starting;
  launch_id = "l1";
  pid = none;
  process_creation_time = none;
  supervisor_receipt_digest = none;
  resource_limits = record {
    timeout_ms = 1000;
    grace_ms = 100;
    stdout_max_bytes = 100;
    stderr_max_bytes = 100;
  };
  stdout_path = "out";
  stderr_path = "err";
  started_at = none;
  ended_at = none;
  exit_code = none;
  sandbox = RunSandboxRecord.danger_full_access;
  approval = none;
  output_artifact_refs = [];
  failure_classification = none;
}

abbrev request : RunRecordCommitRequest
request = record {
  expected_generation = 1;
  operation_key = digest_a;
  request_digest = digest_b;
  run = run;
  initial = true;
}

abbrev digest_identity : RunIdentity → Sha256Digest
digest_identity i = digest_a

abbrev file_or : ProjectStateFile → Result ProjectStateFile → ProjectStateFile
file_or other (ok f) = f
file_or other (err e) = other

abbrev recorded : ProjectStateFile
recorded = file_or snapshot (commit_run_record digest_identity encoding "p1" request now disk).0

recorded_run_was_allowed_example :
    (recorded.state ≡ record created { runs = put [] "r1" run })
    × (IsNewRun created run ⊎ IsNextRun digest_identity created run)
unfolding commit_run_record load read_consistent_locked read_event_log parse_lines parse_event
    creation create_event is_sha256_digest replay_events reduce_project_event snapshot run_allowed
    get commit run_request apply_event
recorded_run_was_allowed_example =
    recorded_run_was_allowed digest_identity encoding "p1" disk (creation ∷ []) creation created
      disk-IsSynced request now recorded refl

-- A project with a run that has succeeded.
abbrev done : RunRecord
done = record run { state = RunState.succeeded }

abbrev recording : ProjectEvent
recording = next_event encoding snapshot (run_request (record request { run = done })) now

abbrev with_done : ProjectReducerState
with_done = record created { runs = ("r1", done) ∷ [] }

abbrev done_disk : Disk
done_disk = record {
  log = record { lines = entry creation ∷ entry recording ∷ []; tail = none };
  state =
      some (state_file 1 (rebuild encoding "p1" (creation ∷ recording ∷ []) recording with_done));
}

done_disk-IsSynced :
    IsSynced encoding "p1" done_disk (creation ∷ recording ∷ []) recording with_done
unfolding parse_lines parse_event creation create_event replay_events is_sha256_digest next_event
    snapshot run_request reduce_project_event apply_event put
done_disk-IsSynced = record {
  logged = record { whole = refl; parsed = refl; final = refl; replayed = refl };
  snapshot = refl;
}

terminal_run_is_final_example :
    commit_run_record digest_identity encoding "p1" request now done_disk
    ≡ (err run_state_conflict, done_disk)
unfolding get
terminal_run_is_final_example =
    terminal_run_is_final digest_identity encoding "p1" done_disk (creation ∷ recording ∷ [])
      recording with_done done_disk-IsSynced request now done refl refl refl

-- A project with a run that has been recorded, and its first update.
abbrev started : ProjectEvent
started = next_event encoding snapshot (run_request request) now

abbrev with_run : ProjectReducerState
with_run = record created { runs = ("r1", run) ∷ [] }

abbrev run_disk : Disk
run_disk = record {
  log = record { lines = entry creation ∷ entry started ∷ []; tail = none };
  state = some (state_file 1 (rebuild encoding "p1" (creation ∷ started ∷ []) started with_run));
}

run_disk-IsSynced : IsSynced encoding "p1" run_disk (creation ∷ started ∷ []) started with_run
unfolding parse_lines parse_event creation create_event replay_events is_sha256_digest next_event
    snapshot run_request reduce_project_event apply_event put
run_disk-IsSynced = record {
  logged = record { whole = refl; parsed = refl; final = refl; replayed = refl };
  snapshot = refl;
}

abbrev update : RunRecordCommitRequest
update = record request {
  expected_generation = 2;
  run = record run { state = RunState.running };
  initial = false;
}

abbrev updated : ProjectStateFile
updated = file_or snapshot (commit_run_record digest_identity encoding "p1" update now run_disk).0

one_update : RunPath digest_identity host encoding "p1" "r1" with_run updated.state 1
unfolding commit_run_record load read_consistent_locked read_event_log parse_lines parse_event
    creation create_event is_sha256_digest replay_events reduce_project_event snapshot run_allowed
    get commit run_request apply_event rebuild create_state_file next_event put valid_run_transition
one_update =
    updates run_disk (creation ∷ started ∷ []) started update now updated run_disk-IsSynced refl
      refl stop

three_updates_at_most_example :
    (1 ≤ 3)
    × ((final : RunState) × RunIn final "r1" updated.state
        × ((◌≢◌ {A = ℕ} 1 3) ⊎ (is_terminal final ≡ true)))
unfolding get
three_updates_at_most_example =
    three_updates_at_most digest_identity host encoding "p1" "r1" with_run updated.state 1
      (run, refl, refl) one_update
