-- ===== src/Examples/Storing.antt =====
-- The theorems on the store at a project with one event.
mod Running
mod Crashing
mod Creating
mod Guarding
mod Writing
use georesearch_dsh.Prelude.{◌≡◌, refl, none, some, [], ◌∷◌, ok, err, other_error, arith}
use georesearch_dsh.Contracts.Json.{null}
use georesearch_dsh.Contracts.State.{ProjectReducerState, ProjectStateFile}
use georesearch_dsh.Contracts.Event.{ProjectEvent, project_blockers_updated, unsupported}
use georesearch_dsh.Reducer.{reduce_project_event}
use georesearch_dsh.Reducer.Apply.{apply_event}
use georesearch_dsh.Store.Disk.{Disk, entry, not_json, state_file, is_sha256_digest}
use georesearch_dsh.Store.Log.{
  parse_lines, parse_event, metadata_valid, replay_events, append_event, create_event,
  read_event_log,
}
use georesearch_dsh.Store.Snapshot.{read_consistent_locked, rebuild, create_state_file}
use georesearch_dsh.Store.Commit.{
  ProjectCommitRequest, request_valid, creation_event, next_event, next_state_file, commit_locked,
  commit, load, is_blank, generation_conflict, appended,
}
use georesearch_dsh.Store.Synced.{IsSynced}
use georesearch_dsh.Store.Durability.{
  commit_durable, crashed_commit_is_completed, torn_append_is_undone, failed_commit_writes_nothing,
  commit_conflict, load_synced,
}
use georesearch_dsh.Examples.Data.{workspace, created, digest_a, digest_b, now, encoding}

abbrev creation : ProjectEvent
unfolding creation_event
creation = creation_event encoding "p1" workspace digest_a digest_b now

abbrev snapshot : ProjectStateFile
unfolding rebuild create_state_file
snapshot = rebuild encoding "p1" (creation ∷ []) creation created

abbrev disk : Disk
disk = record {
  log = record { lines = entry creation ∷ []; tail = none };
  state = some (state_file 1 snapshot);
}

disk-IsSynced : IsSynced encoding "p1" disk (creation ∷ []) creation created
unfolding parse_lines parse_event metadata_valid is_sha256_digest replay_events reduce_project_event
    rebuild create_state_file creation_event create_event
disk-IsSynced = record {
  logged = record { whole = refl; parsed = refl; final = refl; replayed = refl };
  snapshot = refl;
}

abbrev request : ProjectCommitRequest
request = record {
  expected_generation = 1;
  operation_key = digest_a;
  request_digest = digest_b;
  content = project_blockers_updated ("b" ∷ []);
}

abbrev blocked : ProjectReducerState
blocked = record created { blockers = "b" ∷ [] }

abbrev event : ProjectEvent
unfolding next_event
event = next_event encoding snapshot request now

abbrev next : ProjectStateFile
unfolding next_state_file
next = next_state_file encoding "p1" snapshot event blocked

abbrev committed : Disk
committed = record { log = append_event disk.log event; state = some (state_file 1 next) }

commit_durable_example :
    (commit encoding "p1" request now disk ≡ (ok next, committed))
    × IsSynced encoding "p1" committed (creation ∷ event ∷ []) event blocked
    × (load encoding "p1" committed ≡ (ok next, committed))
    × (next.generation ≡ 2)
unfolding request_valid reduce_project_event apply_event is_sha256_digest rebuild create_state_file
    next_event create_event next_state_file
commit_durable_example =
    commit_durable encoding "p1" disk (creation ∷ []) creation created disk-IsSynced request now
      blocked refl refl refl refl

crashed_commit_is_completed_example :
    load encoding "p1" (appended disk event) ≡ (ok next, committed)
unfolding request_valid reduce_project_event apply_event is_sha256_digest rebuild create_state_file
    next_event create_event next_state_file
crashed_commit_is_completed_example =
    crashed_commit_is_completed encoding "p1" disk (creation ∷ []) creation created disk-IsSynced
      request now blocked refl refl refl refl

torn_append_is_undone_example :
    load encoding "p1"
      (record disk { log = record { lines = entry creation ∷ []; tail = some not_json } })
    ≡ (ok snapshot, disk)
unfolding rebuild create_state_file
torn_append_is_undone_example =
    torn_append_is_undone encoding "p1" disk (creation ∷ []) creation created disk-IsSynced not_json
      refl

abbrev late_request : ProjectCommitRequest
late_request = record request { expected_generation = 2 }

abbrev unknown_request : ProjectCommitRequest
unknown_request = record request { content = unsupported "unknown" null }

failed_commit_writes_nothing_example : (commit encoding "p1" unknown_request now disk).1 ≡ disk
unfolding commit commit_locked request_valid is_sha256_digest is_blank reduce_project_event
    apply_event read_consistent_locked read_event_log parse_lines parse_event creation create_event
    replay_events snapshot
failed_commit_writes_nothing_example =
    failed_commit_writes_nothing encoding "p1" disk (creation ∷ []) creation created disk-IsSynced
      unknown_request now other_error refl

commit_conflict_example :
    commit encoding "p1" late_request now disk ≡ (err generation_conflict, disk)
unfolding request_valid is_sha256_digest
commit_conflict_example =
    commit_conflict encoding "p1" disk (creation ∷ []) creation created disk-IsSynced late_request
      now refl (λ e. omega arith)
