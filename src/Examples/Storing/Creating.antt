-- ===== src/Examples/Storing/Creating.antt =====
-- The creation of the project of the other examples.
use georesearch_dsh.Prelude.{◌≡◌, refl, [], ◌∷◌, ok}
use georesearch_dsh.Reducer.{created_state}
use georesearch_dsh.Store.Disk.{is_sha256_digest}
use georesearch_dsh.Store.Log.{append_event}
use georesearch_dsh.Store.Commit.{create_project, initial_project_binding}
use georesearch_dsh.Store.Synced.{IsSynced}
use georesearch_dsh.Store.Creation.{empty_disk, created_project_is_in_order}
use georesearch_dsh.Examples.Data.{workspace, created, digest_a, digest_b, now, encoding}
use georesearch_dsh.Examples.Storing.{creation, snapshot, disk}

created_project_is_in_order_example :
    (create_project encoding "p1" workspace digest_a digest_b now empty_disk ≡ (ok snapshot, disk))
    × IsSynced encoding "p1" disk (creation ∷ []) creation created
unfolding is_sha256_digest snapshot creation created_state initial_project_binding append_event
created_project_is_in_order_example =
    created_project_is_in_order encoding "p1" workspace digest_a digest_b now refl refl refl refl
