-- ===== src/Store/Creation.antt =====
-- A project that has just been created (store.ts).
use georesearch_dsh.Prelude.{String, ◌≡◌, refl, true, none, some, [], ◌∷◌, eq_refl, arith, ok}
use georesearch_dsh.Contracts.Json.{Sha256Digest}
use georesearch_dsh.Contracts.Workspace.{WorkspaceBinding}
use georesearch_dsh.Contracts.State.{ProjectReducerState}
use georesearch_dsh.Contracts.Event.{ProjectEvent}
use georesearch_dsh.Reducer.{reduce_project_event, created_state}
use georesearch_dsh.Store.Disk.{Disk, entry, state_file, Encoding, is_sha256_digest}
use georesearch_dsh.Store.Log.{
  metadata_valid, parse_event, parse_lines, read_event_log, append_event, replay_events,
  create_event,
}
use georesearch_dsh.Store.Snapshot.{rebuild}
use georesearch_dsh.Store.Commit.{create_project, creation_event, initial_project_binding, appended}
use georesearch_dsh.Store.Synced.{IsSynced}

-- A project directory without files.
abbrev pub empty_disk : Disk
empty_disk = record { log = record { lines = []; tail = none }; state = none }

module _ (p : Encoding) (project_id : String) (binding : WorkspaceBinding)
    (operation_key request_digest : Sha256Digest) (time : String)
    (same : binding.project_id ≡ project_id) (key : is_sha256_digest operation_key ≡ true)
    (request : is_sha256_digest request_digest ≡ true) (utc : p.canonical_utc time ≡ true) where
  abbrev pub first_event : ProjectEvent
  first_event = creation_event p project_id binding operation_key request_digest time

  abbrev pub first_state : ProjectReducerState
  first_state =
      created_state (initial_project_binding p project_id binding.workspace_id time) binding

  abbrev first_disk : Disk
  first_disk = record {
    log = append_event empty_disk.log first_event;
    state = some (state_file 1 (rebuild p project_id (first_event ∷ []) first_event first_state));
  }

  first_parses : parse_event p (entry first_event) 1 none ≡ ok first_event
  unfolding parse_event metadata_valid creation_event create_event
  first_parses = ground (
    arith,
    key,
    request,
    utc,
    p.digest_event_format first_event.body,
    eq_refl (p.digest_event first_event.body),
  )

  first-IsSynced : IsSynced p project_id first_disk (first_event ∷ []) first_event first_state
  unfolding append_event parse_lines replay_events reduce_project_event creation_event create_event
      created_state initial_project_binding
  first-IsSynced = record {
    logged = record {
      whole = refl;
      parsed = rw first_parses;
      final = refl;
      replayed = rw (eq_refl project_id);
    };
    snapshot = refl;
  }

  -- The creation of a project in an empty directory, for a workspace that is bound to the project,
  -- with well-formed digests and at a canonical time, succeeds. It returns the state file of generation
  -- 1, and the snapshot that it leaves agrees with its log of one event.
  pub created_project_is_in_order :
      (create_project p project_id binding operation_key request_digest time empty_disk
        ≡ (ok (rebuild p project_id (first_event ∷ []) first_event first_state), first_disk))
      × IsSynced p project_id first_disk (first_event ∷ []) first_event first_state
  unfolding create_project read_event_log parse_lines appended reduce_project_event creation_event
      create_event created_state initial_project_binding rebuild
  created_project_is_in_order = (rw (same, eq_refl project_id), first-IsSynced)
