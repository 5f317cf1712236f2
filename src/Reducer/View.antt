-- ===== src/Reducer/View.antt =====
-- `projectSnapshot`: what tools see of a project (reducer.ts).
pub mod Visible
pub mod Blocked
use georesearch_dsh.Prelude.{
  ℕ, String, Bool, true, false, ◌&&◌, ◌||◌, not, Option, none, some, List, [], ◌∷◌, map, is_empty,
  any, filter_if, if◌then◌else◌, Result, ok, err, other_error,
}
use georesearch_dsh.Dict.{Dict, get, values, or_empty}
use georesearch_dsh.Contracts.Artifact.{
  ArtifactRecord, ArtifactRef, ArtifactMaterialization, ArtifactIntegrity,
}
use georesearch_dsh.Contracts.Brief.{ResearchBrief}
use georesearch_dsh.Contracts.Run.{RunRecord, RunState}
use georesearch_dsh.Contracts.Reproduction.{ReproductionReport, ReproductionStatus}
use georesearch_dsh.Contracts.Workspace.{WorkspaceBinding}
use georesearch_dsh.Contracts.State.{
  ProjectReducerState, ProjectStateFile, ProjectSnapshot, ProjectReadiness, ProjectReadinessDomain,
}
use georesearch_dsh.Reducer.Maps.{is_current}

abbrev is_active : RunState → Bool
is_active RunState.running = true
is_active RunState.starting = true
is_active RunState.collecting = true
is_active _ = false

abbrev has_succeeded : RunState → Bool
has_succeeded RunState.succeeded = true
has_succeeded _ = false

-- `status.startsWith('blocked-') || status === 'failed-with-diagnosis'`
abbrev is_obstructed : ReproductionStatus → Bool
is_obstructed ReproductionStatus.blocked_by_missing_data = true
is_obstructed ReproductionStatus.blocked_by_environment = true
is_obstructed ReproductionStatus.failed_with_diagnosis = true
is_obstructed _ = false

abbrev pub is_scope : ProjectReadinessDomain → Bool
is_scope ProjectReadinessDomain.scope = true
is_scope _ = false

abbrev ready_if : Bool → ProjectReadiness
ready_if b = if b then ProjectReadiness.ready else ProjectReadiness.missing

abbrev scope_readiness : Option ResearchBrief → ProjectReadiness
scope_readiness none = ProjectReadiness.missing
scope_readiness (some brief) = ProjectReadiness.ready

abbrev runs_readiness : List RunRecord → ProjectReadiness
runs_readiness runs =
    if any (λ r. is_active r.state) runs
    then ProjectReadiness.in_progress
    else ready_if (any (λ r. has_succeeded r.state) runs)

abbrev reproduction_readiness : ProjectReducerState → ProjectReadiness
reproduction_readiness s =
    let reports = values (or_empty s.reproduction_reports) in
    if not (is_empty reports)
    then if any (λ r. is_obstructed r.status) reports
      then ProjectReadiness.blocked
      else ProjectReadiness.ready
    else if not (is_empty (or_empty s.reproduction_plans))
        || not (is_empty (or_empty s.repository_audits))
    then ProjectReadiness.in_progress
    else ProjectReadiness.missing

-- The `switch` of `readinessFor`.
unfoldable pub own_readiness : ProjectReadinessDomain → ProjectReducerState → ProjectReadiness
own_readiness ProjectReadinessDomain.scope s = scope_readiness s.research_brief
own_readiness ProjectReadinessDomain.runs s = runs_readiness (values s.runs)
own_readiness ProjectReadinessDomain.evidence s = ready_if (not (is_empty (or_empty s.evidence)))
own_readiness ProjectReadinessDomain.reproduction s = reproduction_readiness s
own_readiness ProjectReadinessDomain.protocol s =
    ready_if (not (is_empty (or_empty s.experiment_specs)))
own_readiness ProjectReadinessDomain.implementation s =
    ready_if (not (is_empty (or_empty s.dataset_manifests)))
own_readiness _ s =
    if any (λ a. is_current a.validity) (values s.artifacts)
    then ProjectReadiness.in_progress
    else ProjectReadiness.missing

unfoldable pub readiness_for : ProjectReadinessDomain → ProjectReducerState → ProjectReadiness
unfolding own_readiness
readiness_for d s =
    if not (is_empty s.blockers) && not (is_scope d)
    then ProjectReadiness.blocked
    else if not (is_empty s.stale_indicators) && not (is_scope d)
    then ProjectReadiness.stale
    else own_readiness d s

abbrev is_committed : ArtifactMaterialization → Bool
is_committed ArtifactMaterialization.committed = true
is_committed _ = false

abbrev is_missing : ArtifactIntegrity → Bool
is_missing ArtifactIntegrity.missing = true
is_missing _ = false

abbrev pub is_visible : ArtifactRecord → Bool
is_visible a = is_committed a.materialization && not (is_missing a.integrity)

abbrev pub ref_of : ArtifactRecord → ArtifactRef
ref_of a = record { artifact_id = a.artifact_id; digest = a.digest; kind = a.kind }

-- `left.localeCompare(right) <= 0`, whose order the host's locale decides
module _ (locale_le : String → String → Bool) where
  -- `sort` is stable.
  unfoldable pub insert_artifact : ArtifactRecord → List ArtifactRecord → List ArtifactRecord
  insert_artifact a [] = a ∷ []
  insert_artifact a (b ∷ bs) =
      let rest = insert_artifact a bs in
      if locale_le a.artifact_id b.artifact_id then a ∷ b ∷ bs else b ∷ rest

  unfoldable pub sort_artifacts : List ArtifactRecord → List ArtifactRecord
  unfolding insert_artifact
  sort_artifacts [] = []
  sort_artifacts (a ∷ as') = insert_artifact a (sort_artifacts as')

  unfoldable pub visible_artifacts : Dict ArtifactRecord → List ArtifactRef
  unfolding sort_artifacts
  visible_artifacts artifacts =
      map ref_of (sort_artifacts (filter_if is_visible (values artifacts)))

  abbrev pub snapshot_of : ProjectStateFile → String → ProjectSnapshot
  snapshot_of f workspace_id = record {
    project_id = f.project_id;
    generation = f.generation;
    state_digest = f.digest;
    workspace_id = workspace_id;
    readiness = λ d. readiness_for d f.state;
    active_task_ids = f.state.active_task_ids;
    visible_artifacts = visible_artifacts f.state.artifacts;
    blockers = f.state.blockers;
    stale_indicators = f.state.stale_indicators;
  }

  abbrev snapshot_for : ProjectStateFile → String → Option WorkspaceBinding → Result ProjectSnapshot
  snapshot_for f workspace_id none = err other_error
  snapshot_for f workspace_id (some w) = ok (snapshot_of f workspace_id)

  unfoldable pub project_snapshot : ProjectStateFile → String → Result ProjectSnapshot
  project_snapshot f workspace_id =
      snapshot_for f workspace_id (get f.state.workspace_bindings workspace_id)
