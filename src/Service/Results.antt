-- ===== src/Service/Results.antt =====
-- `commitResultRecords`: what it checks.
use georesearch_dsh.Prelude.{
  String, Bool, true, false, ◌&&◌, not, Option, none, some, List, [], ◌∷◌, ◌++◌, ◌==◌, nat_eq,
  length, is_empty, any, all, find, map, unique, if◌then◌else◌, Result, ok, err, ◌>>=◌, Failure,
  geo_research_error, other_error,
}
use georesearch_dsh.Dict.{Dict, get, put, values, or_empty}
use georesearch_dsh.Contracts.Artifact.{ArtifactRef}
use georesearch_dsh.Contracts.Run.{RunRecord, RunKind}
use georesearch_dsh.Contracts.Experiment.{
  ExperimentSpec, ExperimentMetric, ResultRecord, ValidationStatus,
}
use georesearch_dsh.Contracts.State.{ProjectReducerState}
use georesearch_dsh.Service.Host.{Host, Canonical, digest_json}
use georesearch_dsh.Service.Guards.{
  Decision, holds, check_each, same_strings, sort_by, assert_current_artifact,
}
use georesearch_dsh.Service.Outcomes.{is_succeeded}

abbrev pub result_invalid : Failure
result_invalid = geo_research_error "RESULT_INVALID"

-- The run is the one on record with its outputs.
pub record ResultBundle : Type 0 where
  pub run : RunRecord
  pub results : List ResultRecord

unfoldable pub concat_refs : List ResultRecord → List ArtifactRef
concat_refs [] = []
concat_refs (r ∷ rs) = r.artifact_refs ++ concat_refs rs

abbrev pub is_formal : RunKind → Bool
is_formal RunKind.formal = true
is_formal RunKind.local_test = false

module _ (h : Host) where
  abbrev check_result_digest : ResultRecord → Result (Unit {0})
  check_result_digest r =
      let body = record r { digest = ""; validation_status = ValidationStatus.pending } in
      if not (digest_json h (Canonical.stable_result body) == r.digest)
        && not (digest_json h (Canonical.pending_result body) == r.digest)
      then err other_error
      else ok tt

  unfoldable pub results_precheck : ResultBundle → Result (Unit {0})
  unfolding digest_json
  results_precheck b =
      if is_empty b.results
      then err result_invalid
      else if not (nat_eq (length (unique (map (λ r. r.result_id) b.results))) (length b.results))
      then err result_invalid
      else check_each check_result_digest b.results

  abbrev same_ref : ArtifactRef → ArtifactRef → Bool
  same_ref a b =
      h.canonical_json (Canonical.artifact_ref a) == h.canonical_json (Canonical.artifact_ref b)

  abbrev refs_by_id : Dict ArtifactRef → List ArtifactRef → Result (Dict ArtifactRef)
  refs_by_id m [] = ok m
  refs_by_id m (r ∷ rs) =
      let rest = refs_by_id (put m r.artifact_id r) rs in
      if holds (λ existing. not (same_ref existing r)) (get m r.artifact_id)
      then err result_invalid
      else rest

  -- `uniqueArtifactRefs`
  unfoldable pub unique_artifact_refs : List ArtifactRef → Result (List ArtifactRef)
  unique_artifact_refs refs =
      refs_by_id [] refs >>= λ m. ok (sort_by h.locale_le (λ r. r.artifact_id) (values m))

  -- `withoutRunOutputs`
  unfoldable pub same_but_outputs : RunRecord → RunRecord → Bool
  same_but_outputs a b =
      h.canonical_json (Canonical.run_without_outputs (record a { output_artifact_refs = [] }))
      == h.canonical_json (Canonical.run_without_outputs (record b { output_artifact_refs = [] }))

  abbrev pub stored_run_fits : String → RunRecord → RunRecord → Bool
  stored_run_fits project_id run stored =
      run.project_id == project_id
      && is_formal stored.kind
      && is_succeeded stored.state
      && is_succeeded run.state
      && same_but_outputs stored run

  abbrev pub result_of_run : RunRecord → ResultRecord → ExperimentSpec → Bool
  result_of_run run r spec =
      r.run_id == run.run_id
      && digest_json h (Canonical.run run) == r.run_digest
      && run.experiment_spec_digest == r.experiment_spec_digest
      && spec.digest == r.experiment_spec_digest
      && run.workspace_id == r.workspace_id
      && nat_eq run.workspace_binding_version r.workspace_binding_version
      && same_strings run.dataset_digests r.dataset_digests

  abbrev pub metric_of : ResultRecord → ExperimentSpec → Bool
  metric_of r spec =
      holds (λ (m : ExperimentMetric). m.unit == r.unit && m.aggregation == r.aggregation)
        (find (λ m. m.metric_id == r.metric_id) spec.metrics)

  abbrev pub check_with_spec :
      ProjectReducerState → RunRecord → ResultRecord → Option ExperimentSpec → Result (Unit {0})
  check_with_spec s run r none = err result_invalid
  check_with_spec s run r (some spec) =
      if not (result_of_run run r spec)
      then err result_invalid
      else if not (metric_of r spec)
      then err result_invalid
      else if not (any (λ d. d.dataset_id == r.scope.dataset_id) spec.datasets)
      then err result_invalid
      else check_each (assert_current_artifact s) r.artifact_refs >>= λ u.
          if holds (λ existing. not (existing.digest == r.digest))
            (get (or_empty s.results) r.result_id)
          then err result_invalid
          else ok tt

  abbrev pub check_result :
      String → ProjectReducerState → RunRecord → ResultRecord → Result (Unit {0})
  check_result project_id s run r =
      if not (r.project_id == project_id)
      then err other_error
      else check_with_spec s run r (get (or_empty s.experiment_specs) r.experiment_spec_id)

  abbrev pub is_on_file : ProjectReducerState → ResultBundle → RunRecord → Bool
  is_on_file s b stored =
      digest_json h (Canonical.run stored) == digest_json h (Canonical.run b.run)
      && all
          (λ r.
            holds (λ existing. existing.digest == r.digest) (get (or_empty s.results) r.result_id))
          b.results

  unfoldable pub check_outputs : ResultBundle → Result (Unit {0})
  unfolding unique_artifact_refs
  check_outputs b = unique_artifact_refs (concat_refs b.results) >>= λ expected.
      if h.canonical_json (Canonical.artifact_refs b.run.output_artifact_refs)
        == h.canonical_json (Canonical.artifact_refs expected)
      then ok tt
      else err result_invalid

  abbrev pub results_on :
      String → ResultBundle → ProjectReducerState → Option RunRecord → Result Decision
  results_on project_id b s none = err result_invalid
  results_on project_id b s (some stored) =
      if not (stored_run_fits project_id b.run stored)
      then err result_invalid
      else check_outputs b >>= λ u.
          check_each (assert_current_artifact s) b.run.output_artifact_refs >>= λ v.
          check_each (check_result project_id s b.run) b.results >>= λ w.
          ok (if is_on_file s b stored then Decision.keep else Decision.write)

  unfoldable pub results_guard : String → ResultBundle → ProjectReducerState → Result Decision
  results_guard project_id b s = results_on project_id b s (get s.runs b.run.run_id)
