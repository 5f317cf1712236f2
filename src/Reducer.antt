-- ===== src/Reducer.antt =====
-- packages/project-provider-files/src/reducer.ts: the state of a project as a fold over its events.
-- The definitions stand in the modules `Maps` (updates of one map) and `Apply` (one event on a state).
pub mod Maps
pub mod Apply
pub mod Lookup
pub mod Downstream
pub mod View
pub mod Reviews
pub mod Identity
pub mod Artifacts
pub mod Keyed
pub mod Step
pub mod History
pub mod Preserved
use georesearch_dsh.Prelude.{String, Option, none, some, [], ◌∷◌}
use georesearch_dsh.Prelude.{Result, ok, err, other_error, ◌>>=◌}
use georesearch_dsh.Contracts.Workspace.{ProjectBinding, WorkspaceBinding}
use georesearch_dsh.Contracts.State.{ProjectReducerState}
use georesearch_dsh.Contracts.Event.{ProjectEventData, ProjectEvent, project_created, unsupported}
use georesearch_dsh.Reducer.Apply.{apply_event}

-- The state that `project.created` makes.
unfoldable pub created_state : ProjectBinding → WorkspaceBinding → ProjectReducerState
created_state b w = record {
  project_id = b.project_id;
  project_binding = b;
  workspace_bindings = (w.workspace_id, w) ∷ [];
  research_brief = none;
  artifacts = [];
  runs = [];
  sources = some [];
  evidence = some [];
  repository_audits = some [];
  reproduction_plans = some [];
  reproduction_test_specs = some [];
  reproduction_reports = some [];
  geodata_reports = some [];
  dataset_manifests = some [];
  experiment_specs = some [];
  experiment_amendments = some [];
  results = some [];
  validation_plans = some [];
  validation_reports = some [];
  review_records = some [];
  claims = some [];
  writing_packets = some [];
  manuscripts = some [];
  manuscript_audits = some [];
  active_task_ids = [];
  blockers = [];
  stale_indicators = [];
}

unfoldable pub require_state : Option ProjectReducerState → Result ProjectReducerState
require_state none = err other_error
require_state (some s) = ok s

reduce : Option ProjectReducerState → String → ProjectEventData → Result ProjectReducerState
unfolding created_state require_state
reduce none time (project_created b w) = ok (created_state b w)
reduce (some s) time (project_created b w) = err other_error
reduce current time (unsupported t d) = err other_error
reduce current time e = require_state current >>= λ s. apply_event s time e

unfoldable pub reduce_project_event :
    Option ProjectReducerState → ProjectEvent → Result ProjectReducerState
unfolding reduce
reduce_project_event current event = reduce current event.time event.content
