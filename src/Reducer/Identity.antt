-- ===== src/Reducer/Identity.antt =====
-- The identity of a project is fixed when it is created (reducer.ts).
use georesearch_dsh.Prelude.{String, ◌≡◌, refl, sym, subst, ◌∙◌, Option, none, some, ok}
use georesearch_dsh.Dict.{get}
use georesearch_dsh.Contracts.State.{ProjectReducerState}
use georesearch_dsh.Contracts.Artifact.{ArtifactRecord}
use georesearch_dsh.Contracts.Event.{
  ProjectEvent, ProjectEventData, deliverable_published, artifact_upload_rolled_back,
}
use georesearch_dsh.Reducer.{reduce_project_event}
use georesearch_dsh.Reducer.Apply.{apply_event, publish_checked, remove_found}
use georesearch_dsh.Reducer.Step.{reduce-apply}
use georesearch_dsh.Reducer.History.{Ensures}

-- The parts of a project's binding that never change.
pub record SameProject (s t : ProjectReducerState) : Type 0 where
  pub project_id : t.project_id ≡ s.project_id
  pub bound_id : t.project_binding.project_id ≡ s.project_binding.project_id
  pub binding_id : t.project_binding.binding_id ≡ s.project_binding.binding_id
  pub created_at : t.project_binding.created_at ≡ s.project_binding.created_at

apply-SameProject :
    (s : ProjectReducerState) (time : String) (e : ProjectEventData)
    → Ensures (SameProject s) (apply_event s time e)
unfolding apply_event
apply-SameProject s time (deliverable_published a) = go a.source_relative_path
  where
    go : (o : Option String) → Ensures (SameProject s) (publish_checked s a o)
    go none = tt
    go (some p) = record {
      project_id = refl;
      bound_id = refl;
      binding_id = refl;
      created_at = refl;
    }
apply-SameProject s time (artifact_upload_rolled_back k a d w) = go (get s.artifacts k)
  where
    go : (o : Option ArtifactRecord) → SameProject s (remove_found s k o)
    go none = record { project_id = refl; bound_id = refl; binding_id = refl; created_at = refl }
    go (some r) = record {
      project_id = refl;
      bound_id = refl;
      binding_id = refl;
      created_at = refl;
    }
apply-SameProject s time _ = search

-- No event changes the id of the project, the id of its binding or its time of creation.
pub reduce-SameProject :
    (s t : ProjectReducerState) (e : ProjectEvent)
    → reduce_project_event (some s) e ≡ ok t
    → SameProject s t
reduce-SameProject s t e h =
    subst (Ensures (SameProject s)) (sym (reduce-apply s e) ∙ h)
      (apply-SameProject s e.time e.content)
