-- ===== src/Examples/Storing/Crashing.antt =====
-- A project that crashes twice: between the two writes of a commit, and within the next append.
use georesearch_dsh.Prelude.{◌≡◌, refl, ap, some, [], ◌∷◌, ok}
use georesearch_dsh.Reducer.{reduce_project_event}
use georesearch_dsh.Reducer.Apply.{apply_event}
use georesearch_dsh.Store.Disk.{Disk, not_json, is_sha256_digest}
use georesearch_dsh.Store.Log.{create_event}
use georesearch_dsh.Store.Snapshot.{rebuild, create_state_file}
use georesearch_dsh.Store.Commit.{commit, load, request_valid, next_event, next_state_file}
use georesearch_dsh.Store.Durability.{commit_durable}
use georesearch_dsh.Store.Log.{separated}
use georesearch_dsh.Store.Crashes.{
  History, extended, Synced, Steps, stop, follow, dies_before_newline, unended, dies_in_append,
  repaired_disk, event_of, file_of, Extends, crashes_lose_nothing,
}
use georesearch_dsh.Examples.Data.{created, encoding, now}
use georesearch_dsh.Examples.Storing.{creation, disk, disk-IsSynced, request, blocked, next}

abbrev history : History
history = record { events = creation ∷ []; latest = creation; state = created }

abbrev history' : History
history' = extended history (event_of encoding "p1" history request now) next.state

abbrev crashed : Disk
crashed =
    unended encoding "p1" (repaired_disk encoding "p1" disk)
      (event_of encoding "p1" history request now)

abbrev crashed_twice : Disk
crashed_twice = record (repaired_disk encoding "p1" crashed) {
  log = record (separated (repaired_disk encoding "p1" crashed).log) { tail = some not_json };
}

would_commit : (commit encoding "p1" request now disk).0 ≡ ok next
unfolding request_valid reduce_project_event apply_event is_sha256_digest rebuild create_state_file
    next_event create_event next_state_file
would_commit =
    ap (λ x. x.0)
      (commit_durable encoding "p1" disk (creation ∷ []) creation created disk-IsSynced request now
        blocked refl refl refl refl).0

crashes : Steps encoding "p1" disk history crashed_twice history'
unfolding is_sha256_digest
crashes =
    follow (dies_before_newline request now next refl would_commit)
      (follow (dies_in_append (some not_json) refl) stop)

crashes_lose_nothing_example :
    (repaired : Disk) × (load encoding "p1" crashed_twice
      ≡ (ok (file_of encoding "p1" history'), repaired))
    × Synced encoding "p1" repaired history'
    × Extends encoding "p1" history history'
crashes_lose_nothing_example =
    crashes_lose_nothing encoding "p1" disk crashed_twice history history' disk-IsSynced crashes
