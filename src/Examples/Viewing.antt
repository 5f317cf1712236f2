-- ===== src/Examples/Viewing.antt =====
-- What the snapshot of a small project shows.
use mathlib.Core.List.{Memᴰ}
use georesearch_dsh.Prelude.{
  String, ◌≡◌, ◌⊎◌, ◌↔◌, refl, Bool, true, none, some, [], ◌∷◌, includes, filter_if, ok, err,
  other_error,
}
use georesearch_dsh.Dict.{get, values}
use georesearch_dsh.Contracts.Artifact.{ArtifactRef}
use georesearch_dsh.Contracts.Workspace.{WorkspaceBinding}
use georesearch_dsh.Contracts.State.{
  ProjectReducerState, ProjectStateFile, ProjectSnapshot, ProjectReadiness, ProjectReadinessDomain,
}
use georesearch_dsh.Contracts.Event.{ProjectEvent, project_blockers_updated}
use georesearch_dsh.Reducer.{reduce_project_event}
use georesearch_dsh.Reducer.Apply.{apply_event}
use georesearch_dsh.Reducer.View.{
  readiness_for, project_snapshot, visible_artifacts, insert_artifact, sort_artifacts,
}
use georesearch_dsh.Reducer.View.Visible.{IsShown, project_snapshot-IsShown}
use georesearch_dsh.Reducer.View.Blocked.{stale_stays}
use georesearch_dsh.Examples.Data.{artifact, created, or_created, event_of, digest_a, digest_b}

-- Every string comes before every other.
abbrev any_order : String → String → Bool
any_order a b = true

abbrev state : ProjectReducerState
state = record created {
  artifacts = ("a1", artifact "a1" digest_a []) ∷ [];
  stale_indicators = "drift" ∷ [];
}

abbrev file_of : ProjectReducerState → ProjectStateFile
file_of s = record {
  project_id = "p1";
  generation = 1;
  last_event_seq = 1;
  last_event_hash = some digest_a;
  state = s;
  digest = digest_b;
}

abbrev update : ProjectEvent
update = event_of (project_blockers_updated ("b" ∷ []))

abbrev updated : ProjectReducerState
unfolding reduce_project_event apply_event
updated = or_created (reduce_project_event (some state) update)

project_snapshot-IsShown_example :
    ((get state.workspace_bindings "w1" ≡ none)
      × (project_snapshot any_order (file_of state) "w1" ≡ err other_error))
    ⊎ ((w : WorkspaceBinding) × (v : ProjectSnapshot) × (get state.workspace_bindings "w1" ≡ some w)
        × (project_snapshot any_order (file_of state) "w1" ≡ ok v)
        × ((r : ArtifactRef) → Memᴰ r v.visible_artifacts ↔ IsShown state.artifacts r))
project_snapshot-IsShown_example = project_snapshot-IsShown any_order (file_of state) "w1"

stale_stays_example :
    (includes "drift" updated.stale_indicators ≡ true)
    × (readiness_for ProjectReadinessDomain.claims updated ≡ ProjectReadiness.blocked)
unfolding reduce_project_event apply_event includes
stale_stays_example =
    stale_stays state updated update "drift" ProjectReadinessDomain.claims refl refl refl

visible_test :
    visible_artifacts any_order state.artifacts
    ≡ record { artifact_id = "a1"; digest = digest_a; kind = "text" } ∷ []
unfolding visible_artifacts values filter_if sort_artifacts insert_artifact
visible_test = refl
