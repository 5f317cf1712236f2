-- ===== src/Examples/Marking.antt =====
-- The marks of validations and reviews, at a project with one result and one evidence record.
use georesearch_dsh.Prelude.{◌≡◌, refl, none, some, [], ◌∷◌}
use georesearch_dsh.Dict.{get, put, or_empty}
use georesearch_dsh.Contracts.Dataset.{Overall}
use georesearch_dsh.Contracts.Evidence.{EvidenceRecord, EvidenceRelation, ReviewStatus}
use georesearch_dsh.Contracts.Experiment.{ResultRecord, UncertaintyKind, ValidationStatus}
use georesearch_dsh.Contracts.Validation.{
  ValidationSubjectKind, ValidationSubjectRef, ValidationPlan, ValidationReport, ValidationDomain,
  ReviewRecord, Recommendation,
}
use georesearch_dsh.Contracts.State.{ProjectReducerState}
use georesearch_dsh.Contracts.Event.{ProjectEvent, validation_completed, review_recorded}
use georesearch_dsh.Reducer.{reduce_project_event}
use georesearch_dsh.Reducer.Apply.{apply_event}
use georesearch_dsh.Reducer.Maps.{mark_all}
use georesearch_dsh.Reducer.Lookup.{is_named}
use georesearch_dsh.Reducer.Reviews.{validation_marks, review_marks}
use georesearch_dsh.Examples.Data.{event_of, created, or_created, digest_a, digest_b, now}

abbrev result : ResultRecord
result = record {
  result_id = "r1";
  metric_id = "m1";
  value = "0.5";
  unit = "1";
  aggregation = "mean";
  uncertainty = record { kind = UncertaintyKind.none; level = none; lower = none; upper = none };
  comparison_target = none;
  scope = record { dataset_id = "d1"; region = "r"; sensor = "s"; split = "test" };
  artifact_ids = [];
  project_id = "p1";
  workspace_id = "w1";
  workspace_binding_version = 1;
  experiment_spec_id = "s1";
  experiment_spec_digest = digest_a;
  run_id = "run1";
  run_digest = digest_a;
  dataset_digests = [];
  validation_status = ValidationStatus.pending;
  artifact_refs = [];
  committed_at = now;
  digest = digest_a;
}

abbrev evidence : EvidenceRecord
evidence = record {
  source_id = "s1";
  artifact_id = "a1";
  paper_read_receipt_id = "q1";
  locator = record { page_start = 1; page_end = 2 };
  proposition = "p";
  relation = EvidenceRelation.supports;
  paraphrase = "p";
  quoted_text = none;
  limitations = [];
  evidence_id = "e1";
  artifact_digest = digest_a;
  extraction_lineage = record {
    provider_id = "p";
    provider_version = "1";
    parser_id = "p";
    parser_version = "1";
    config_digest = digest_a;
  };
  review_status = ReviewStatus.pending;
  committed_at = now;
  digest = digest_a;
}

abbrev with_records : ProjectReducerState
with_records = record created {
  results = some (("r1", result) ∷ []);
  evidence = some (("e1", evidence) ∷ []);
}

abbrev result_ref : ValidationSubjectRef
result_ref = record { kind = ValidationSubjectKind.result; subject_id = "r1"; digest = digest_a }

abbrev evidence_ref : ValidationSubjectRef
evidence_ref = record {
  kind = ValidationSubjectKind.evidence;
  subject_id = "e1";
  digest = digest_a;
}

-- Names the evidence record at another digest.
abbrev outdated_ref : ValidationSubjectRef
outdated_ref = record evidence_ref { digest = digest_b }

abbrev plan : ValidationPlan
plan = record {
  plan_id = "v1";
  project_id = "p1";
  workspace_id = "w1";
  workspace_binding_version = 1;
  domain = ValidationDomain.experiment;
  subjects = result_ref ∷ [];
  validators = [];
  policy_digest = digest_a;
  created_at = now;
  digest = digest_a;
}

abbrev report : ValidationReport
report = record {
  report_id = "v2";
  project_id = "p1";
  workspace_id = "w1";
  workspace_binding_version = 1;
  plan_id = "v1";
  plan_digest = digest_a;
  subjects = result_ref ∷ [];
  validator_results = [];
  overall = Overall.passed;
  completed_at = now;
  digest = digest_b;
}

abbrev validation : ProjectEvent
validation = event_of (validation_completed plan report)

abbrev validated : ProjectReducerState
unfolding reduce_project_event apply_event
validated = or_created (reduce_project_event (some with_records) validation)

validation_marks_example :
    (get (or_empty validated.results) "r1"
      ≡ some (record result { validation_status = ValidationStatus.passed }))
    × (validated ≡ record with_records {
      results = validated.results;
      validation_plans = some (("v1", plan) ∷ []);
      validation_reports = some (("v2", report) ∷ []);
    })
unfolding reduce_project_event apply_event get put mark_all is_named
validation_marks_example =
    validation_marks with_records validated validation plan report "r1" refl refl

abbrev review : ReviewRecord
review = record {
  review_id = "v3";
  subject_refs = outdated_ref ∷ evidence_ref ∷ [];
  validation_report_ids = [];
  findings = [];
  recommendation = Recommendation.accept;
  supersedes_review_ids = [];
  project_id = "p1";
  workspace_id = "w1";
  workspace_binding_version = 1;
  created_at = now;
  digest = digest_a;
}

abbrev recorded : ProjectEvent
recorded = event_of (review_recorded review)

abbrev reviewed : ProjectReducerState
unfolding reduce_project_event apply_event
reviewed = or_created (reduce_project_event (some with_records) recorded)

review_marks_example :
    (get (or_empty reviewed.evidence) "e1"
      ≡ some (record evidence { review_status = ReviewStatus.accepted }))
    × (get (or_empty reviewed.reproduction_reports) "e1" ≡ none)
    × (reviewed ≡ record with_records {
      evidence = reviewed.evidence;
      reproduction_reports = reviewed.reproduction_reports;
      review_records = some (("v3", review) ∷ []);
    })
unfolding reduce_project_event apply_event get put mark_all is_named
review_marks_example = review_marks with_records reviewed recorded review "e1" refl refl
