-- ===== src/Service/Reviews.antt =====
-- `commitValidation` and `commitReviewRecord`: what they check.
use georesearch_dsh.Prelude.{
  String, Bool, true, false, ◌&&◌, ◌||◌, not, Option, none, some, List, [], ◌∷◌, ◌++◌, ◌==◌, nat_eq,
  length, any, all, map, includes, unique, if◌then◌else◌, Result, ok, err, ◌>>=◌, Failure,
  geo_research_error, other_error,
}
use georesearch_dsh.Dict.{get, or_empty}
use georesearch_dsh.Contracts.Dataset.{Overall}
use georesearch_dsh.Contracts.Validation.{
  ValidationPlan, ValidationReport, ValidationSubjectRef, ReviewRecord, Recommendation,
}
use georesearch_dsh.Contracts.State.{ProjectReducerState}
use georesearch_dsh.Validation.{derive_validation_overall}
use georesearch_dsh.Service.Host.{Host, Canonical, digest_json}
use georesearch_dsh.Service.Guards.{
  Decision, holds, settle, assert_current_binding, is_current_subject, validation_subject_key,
}

-- A plan and the report on it.
pub record ValidationBundle : Type 0 where
  pub plan : ValidationPlan
  pub report : ValidationReport

unfoldable pub validation_precheck : Host → String → ValidationBundle → Result (Unit {0})
unfolding digest_json
validation_precheck h project_id b =
    if not (
      digest_json h (Canonical.validation_plan_body (record b.plan { digest = "" }))
      == b.plan.digest)
    then err other_error
    else if not (
        digest_json h (Canonical.validation_report_body (record b.report { digest = "" }))
        == b.report.digest)
    then err other_error
    else if not (b.plan.project_id == project_id && b.report.project_id == project_id)
    then err other_error
    else ok tt

abbrev pub validation_invalid : Failure
validation_invalid = geo_research_error "VALIDATION_REPORT_INVALID"

abbrev same_overall : Overall → Overall → Bool
same_overall Overall.passed Overall.passed = true
same_overall Overall.failed Overall.failed = true
same_overall Overall.blocked Overall.blocked = true
same_overall _ _ = false

-- `JSON.stringify(xs) === JSON.stringify(ys)`: two subjects are the same if their keys are, since no
-- kind and no id has a colon.
abbrev same_subjects : List ValidationSubjectRef → List ValidationSubjectRef → Bool
same_subjects [] [] = true
same_subjects (x ∷ xs) (y ∷ ys) =
    validation_subject_key x == validation_subject_key y && same_subjects xs ys
same_subjects _ _ = false

abbrev pub report_is_of_plan : ValidationBundle → Bool
report_is_of_plan b =
    b.report.workspace_id == b.plan.workspace_id
    && nat_eq b.report.workspace_binding_version b.plan.workspace_binding_version
    && b.report.plan_id == b.plan.plan_id
    && b.report.plan_digest == b.plan.digest
    && same_subjects b.report.subjects b.plan.subjects
    && same_overall (derive_validation_overall b.plan.validators b.report.validator_results)
        b.report.overall

-- Either identity may be on file already; then both are, at these digests.
abbrev settle_validation :
    ValidationBundle → Option ValidationPlan → Option ValidationReport → Result Decision
settle_validation b none none = ok Decision.write
settle_validation b plan report =
    if holds (λ p. p.digest == b.plan.digest) plan
      && holds (λ r. r.digest == b.report.digest) report
    then ok Decision.keep
    else err validation_invalid

unfoldable pub validation_guard : Host → ValidationBundle → ProjectReducerState → Result Decision
validation_guard h b s =
    assert_current_binding s b.plan.workspace_id b.plan.workspace_binding_version >>= λ u.
    if not (report_is_of_plan b)
    then err validation_invalid
    else if not (all (is_current_subject h s) b.plan.subjects)
    then err validation_invalid
    else settle_validation b (get (or_empty s.validation_plans) b.plan.plan_id)
        (get (or_empty s.validation_reports) b.report.report_id)

unfoldable pub review_precheck : Host → String → ReviewRecord → Result (Unit {0})
unfolding digest_json
review_precheck h project_id review =
    if not (digest_json h (Canonical.review_body (record review { digest = "" })) == review.digest)
    then err other_error
    else if not (review.project_id == project_id)
    then err other_error
    else ok tt

abbrev pub review_invalid : Failure
review_invalid = geo_research_error "REVIEW_INVALID"

-- `review.subjectRefs.map(validationSubjectKey)`
abbrev pub keys : List ValidationSubjectRef → List String
keys subjects = map validation_subject_key subjects

abbrev pub is_passed : Overall → Bool
is_passed Overall.passed = true
is_passed _ = false

abbrev pub is_accept : Recommendation → Bool
is_accept Recommendation.accept = true
is_accept _ = false

-- A report that a review may rest on.
abbrev pub report_serves : Host → ProjectReducerState → ReviewRecord → ValidationReport → Bool
report_serves h s review report =
    report.project_id == review.project_id
    && report.workspace_id == review.workspace_id
    && nat_eq report.workspace_binding_version review.workspace_binding_version
    && any (λ k. includes k (keys review.subject_refs)) (keys report.subjects)
    && all (is_current_subject h s) report.subjects

-- The keys of the subjects that pass under some of the reports.
unfoldable pub passed_keys : ProjectReducerState → List String → List String
passed_keys s [] = []
passed_keys s (k ∷ ks) = passed_of (get (or_empty s.validation_reports) k) ++ passed_keys s ks
  where
    passed_of : Option ValidationReport → List String
    passed_of none = []
    passed_of (some report) = if is_passed report.overall then keys report.subjects else []

-- An earlier review of the same subjects.
abbrev pub supersedable : ReviewRecord → ReviewRecord → Bool
supersedable review previous =
    previous.project_id == review.project_id
    && previous.workspace_id == review.workspace_id
    && nat_eq previous.workspace_binding_version review.workspace_binding_version
    && nat_eq (length (unique (keys previous.subject_refs)))
        (length (unique (keys review.subject_refs)))
    && all (λ k. includes k (keys previous.subject_refs)) (keys review.subject_refs)

-- The condition of `assertReviewRecordAuthority`, whose checks all throw `REVIEW_INVALID`.
unfoldable pub has_authority : Host → ProjectReducerState → ReviewRecord → Bool
unfolding passed_keys
has_authority h s review =
    nat_eq (length (unique (keys review.subject_refs))) (length review.subject_refs)
    && all (is_current_subject h s) review.subject_refs
    && all (λ k. holds (report_serves h s review) (get (or_empty s.validation_reports) k))
        review.validation_report_ids
    && (not (is_accept review.recommendation)
        || all (λ k. includes k (passed_keys s review.validation_report_ids))
            (keys review.subject_refs))
    && all (λ f. all (λ k. includes k (map (λ r. r.subject_id) review.subject_refs)) f.subject_ids)
        review.findings
    && all (λ k. holds (supersedable review) (get (or_empty s.review_records) k))
        review.supersedes_review_ids

unfoldable pub review_guard : Host → ReviewRecord → ProjectReducerState → Result Decision
review_guard h review s =
    assert_current_binding s review.workspace_id review.workspace_binding_version >>= λ u.
    if not (has_authority h s review)
    then err review_invalid
    else if includes review.review_id review.supersedes_review_ids
    then err review_invalid
    else settle (get (or_empty s.review_records) review.review_id)
        (λ existing. existing.digest == review.digest) review_invalid
