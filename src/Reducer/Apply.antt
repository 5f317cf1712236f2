-- ===== src/Reducer/Apply.antt =====
-- The cases of `reduceProjectEvent` that need a state (reducer.ts).
use georesearch_dsh.Prelude.{String, Option, none, some, [], ◌∷◌, ◌++◌}
use georesearch_dsh.Prelude.{Result, ok, err, other_error, sort_strings, unique}
use georesearch_dsh.Dict.{Dict, put, get, remove, or_empty}
use georesearch_dsh.Contracts.Workspace.{WorkspaceBinding}
use georesearch_dsh.Contracts.Artifact.{ArtifactRecord}
use georesearch_dsh.Contracts.Run.{RunRecord}
use georesearch_dsh.Contracts.Experiment.{ExperimentAmendment}
use georesearch_dsh.Contracts.State.{ProjectReducerState}
use georesearch_dsh.Contracts.Event.{
  ProjectEventData, project_created, workspace_attached, workspace_rebound,
  research_brief_committed, artifact_committed, deliverable_published, artifacts_staled,
  artifact_upload_rolled_back, run_recorded, run_updated, source_recorded, evidence_recorded,
  repository_audit_recorded, reproduction_plan_recorded, reproduction_test_spec_recorded,
  reproduction_report_recorded, experiment_spec_committed, result_records_committed,
  validation_completed, review_recorded, claim_recorded, writing_packet_recorded,
  manuscript_audited, project_blockers_updated, unsupported,
}
use georesearch_dsh.Contracts.Validation.{ReviewRecord}
use georesearch_dsh.Reducer.Maps.{
  put_all, publish, stale_all, is_result, is_evidence, is_reproduction_report, mark_all, status_of,
  set_validation_status, set_evidence_review, set_report_review, review_status_of,
}

-- `workspace.attached` and `workspace.rebound`
unfoldable pub bind_workspace :
    ProjectReducerState → String → WorkspaceBinding → ProjectReducerState
bind_workspace s time w = record s {
  project_binding = record s.project_binding {
    workspace_ids = sort_strings (unique (s.project_binding.workspace_ids ++ w.workspace_id ∷ []));
    updated_at = time;
  };
  workspace_bindings = put s.workspace_bindings w.workspace_id w;
}

abbrev pub publish_checked :
    ProjectReducerState → ArtifactRecord → Option String → Result ProjectReducerState
publish_checked s a none = err other_error
publish_checked s a (some path) = ok (record s { artifacts = publish s.artifacts a })

abbrev pub remove_found : ProjectReducerState → String → Option ArtifactRecord → ProjectReducerState
remove_found s k none = s
remove_found s k (some a) = record s { artifacts = remove s.artifacts k }

abbrev pub record_run : ProjectReducerState → RunRecord → ProjectReducerState
record_run s run = record s { runs = put s.runs run.run_id run }

abbrev pub amended :
    Option (Dict ExperimentAmendment)
    → Option ExperimentAmendment
    → Option (Dict ExperimentAmendment)
amended amendments none = some (or_empty amendments)
amended amendments (some a) = some (put (or_empty amendments) a.amendment_id a)

unfoldable pub record_review : ProjectReducerState → ReviewRecord → ProjectReducerState
record_review s r =
    let status = review_status_of r.recommendation in
    record s {
      evidence = some (
          mark_all (λ e. e.digest) (set_evidence_review status) is_evidence (or_empty s.evidence)
            r.subject_refs);
      reproduction_reports = some (
          mark_all (λ e. e.digest) (set_report_review status) is_reproduction_report
            (or_empty s.reproduction_reports) r.subject_refs);
      review_records = some (put (or_empty s.review_records) r.review_id r);
    }

unfoldable pub apply_event :
    ProjectReducerState → String → ProjectEventData → Result ProjectReducerState
unfolding bind_workspace record_review
apply_event s time (project_created b w) = err other_error
apply_event s time (workspace_attached w) = ok (bind_workspace s time w)
apply_event s time (workspace_rebound w) = ok (bind_workspace s time w)
apply_event s time (research_brief_committed brief) = ok (record s { research_brief = some brief })
apply_event s time (artifact_committed a) =
    ok (record s { artifacts = put s.artifacts a.artifact_id a })
apply_event s time (deliverable_published a) = publish_checked s a a.source_relative_path
apply_event s time (artifacts_staled ids indicators) = ok (record s {
  artifacts = stale_all s.artifacts ids;
  stale_indicators = sort_strings (unique (s.stale_indicators ++ indicators));
})
apply_event s time (artifact_upload_rolled_back k attachment digest workspace) =
    ok (remove_found s k (get s.artifacts k))
apply_event s time (run_recorded run) = ok (record_run s run)
apply_event s time (run_updated run) = ok (record_run s run)
apply_event s time (source_recorded r) =
    ok (record s { sources = some (put (or_empty s.sources) r.source_id r) })
apply_event s time (evidence_recorded r) =
    ok (record s { evidence = some (put (or_empty s.evidence) r.evidence_id r) })
apply_event s time (repository_audit_recorded r) =
    ok (record s { repository_audits = some (put (or_empty s.repository_audits) r.audit_id r) })
apply_event s time (reproduction_plan_recorded r) =
    ok (record s { reproduction_plans = some (put (or_empty s.reproduction_plans) r.plan_id r) })
apply_event s time (reproduction_test_spec_recorded r) = ok (record s {
  reproduction_test_specs = some (put (or_empty s.reproduction_test_specs) r.spec.test_spec_id r);
})
apply_event s time (reproduction_report_recorded r) =
    ok (record s {
      reproduction_reports = some (put (or_empty s.reproduction_reports) r.report_id r);
    })
apply_event s time (experiment_spec_committed reports manifests spec amendment) = ok (record s {
  geodata_reports = some (put_all (λ r. r.report_id) (or_empty s.geodata_reports) reports);
  dataset_manifests = some (put_all (λ m. m.dataset_id) (or_empty s.dataset_manifests) manifests);
  experiment_specs = some (put (or_empty s.experiment_specs) spec.spec_id spec);
  experiment_amendments = amended s.experiment_amendments amendment;
})
apply_event s time (result_records_committed run results) = ok (record s {
  runs = put s.runs run.run_id run;
  results = some (put_all (λ r. r.result_id) (or_empty s.results) results);
})
apply_event s time (validation_completed plan report) = ok (record s {
  results = some (
      mark_all (λ r. r.digest) (set_validation_status (status_of report.overall)) is_result
        (or_empty s.results) report.subjects);
  validation_plans = some (put (or_empty s.validation_plans) plan.plan_id plan);
  validation_reports = some (put (or_empty s.validation_reports) report.report_id report);
})
apply_event s time (review_recorded r) = ok (record_review s r)
apply_event s time (claim_recorded r) =
    ok (record s { claims = some (put (or_empty s.claims) r.claim_id r) })
apply_event s time (writing_packet_recorded r) =
    ok (record s { writing_packets = some (put (or_empty s.writing_packets) r.packet_id r) })
apply_event s time (manuscript_audited m audit) = ok (record s {
  manuscripts = some (put (or_empty s.manuscripts) m.manuscript_id m);
  manuscript_audits = some (put (or_empty s.manuscript_audits) audit.audit_id audit);
})
apply_event s time (project_blockers_updated blockers) = ok (record s { blockers = blockers })
apply_event s time (unsupported t d) = err other_error
