-- ===== src/Reducer/Reviews.antt =====
-- `validation.completed` and `review.recorded` mark exactly the records that they name at the digest
-- that these have (reducer.ts).
use georesearch_dsh.Prelude.{String, ◌≡◌, refl, sym, ap, ◌∙◌, some, ok, ok-injective}
use georesearch_dsh.Dict.{get, put, or_empty, map_option}
use georesearch_dsh.Contracts.State.{ProjectReducerState}
use georesearch_dsh.Contracts.Event.{ProjectEvent, validation_completed, review_recorded}
use georesearch_dsh.Contracts.Validation.{ValidationPlan, ValidationReport, ReviewRecord}
use georesearch_dsh.Reducer.{reduce_project_event}
use georesearch_dsh.Reducer.Apply.{apply_event}
use georesearch_dsh.Reducer.Maps.{
  is_result, is_evidence, is_reproduction_report, set_validation_status, set_evidence_review,
  set_report_review, status_of, review_status_of,
}
use georesearch_dsh.Reducer.Lookup.{mark_named, get-mark_all}
use georesearch_dsh.Reducer.Step.{reduce-apply}

-- Under a completed validation a result has the overall status of the report if a subject of the
-- report names it at its digest, and is unchanged otherwise. The plan and the report are on record,
-- and the other maps are as they were.
pub validation_marks :
    (s t : ProjectReducerState) (e : ProjectEvent) (plan : ValidationPlan)
    (report : ValidationReport) (k : String)
    → e.content ≡ validation_completed plan report
    → reduce_project_event (some s) e ≡ ok t
    → (get (or_empty t.results) k
        ≡ map_option
            (mark_named
              (λ r. r.digest)
              (set_validation_status (status_of report.overall))
              is_result
              report.subjects
              k)
            (get (or_empty s.results) k))
      × (t ≡ record s {
        results = t.results;
        validation_plans = some (put (or_empty s.validation_plans) plan.plan_id plan);
        validation_reports = some (put (or_empty s.validation_reports) report.report_id report);
      })
unfolding apply_event
validation_marks s t e plan report k c h =
    let made = ok-injective (sym (ap (apply_event s e.time) c) ∙ sym (reduce-apply s e) ∙ h) in
    (
      ap (λ (x : ProjectReducerState). get (or_empty x.results) k) (sym made)
          ∙ get-mark_all _ _ (λ r. refl) (λ r. refl) is_result (or_empty s.results) report.subjects
              k,
      rw (← made),
    )

-- Under a review an evidence record, and a reproduction report, has the status of the
-- recommendation if a subject of the review names it at its digest, and is unchanged otherwise. The
-- review is on record, and the other maps are as they were.
pub review_marks :
    (s t : ProjectReducerState) (e : ProjectEvent) (review : ReviewRecord) (k : String)
    → e.content ≡ review_recorded review
    → reduce_project_event (some s) e ≡ ok t
    → (get (or_empty t.evidence) k
        ≡ map_option
            (mark_named
              (λ r. r.digest)
              (set_evidence_review (review_status_of review.recommendation))
              is_evidence
              review.subject_refs
              k)
            (get (or_empty s.evidence) k))
      × (get (or_empty t.reproduction_reports) k
          ≡ map_option
              (mark_named
                (λ r. r.digest)
                (set_report_review (review_status_of review.recommendation))
                is_reproduction_report
                review.subject_refs
                k)
              (get (or_empty s.reproduction_reports) k))
      × (t ≡ record s {
        evidence = t.evidence;
        reproduction_reports = t.reproduction_reports;
        review_records = some (put (or_empty s.review_records) review.review_id review);
      })
unfolding apply_event
review_marks s t e review k c h =
    let made = ok-injective (sym (ap (apply_event s e.time) c) ∙ sym (reduce-apply s e) ∙ h) in
    (
      ap (λ (x : ProjectReducerState). get (or_empty x.evidence) k) (sym made)
          ∙ get-mark_all _ _ (λ r. refl) (λ r. refl) is_evidence (or_empty s.evidence)
              review.subject_refs k,
      ap (λ (x : ProjectReducerState). get (or_empty x.reproduction_reports) k) (sym made)
          ∙ get-mark_all _ _ (λ r. refl) (λ r. refl) is_reproduction_report
              (or_empty s.reproduction_reports) review.subject_refs k,
      rw (← made),
    )
