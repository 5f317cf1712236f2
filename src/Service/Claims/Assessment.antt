-- ===== src/Service/Claims/Assessment.antt =====
-- `assessClaimSupport`: how well a claim is supported.
use georesearch_dsh.Prelude.{
  String, Bool, true, false, ◌&&◌, ◌||◌, not, Option, none, some, List, [], ◌∷◌, ◌++◌, ◌==◌, any,
  all, filter_if, includes, is_empty, if◌then◌else◌, Result, ok, ◌>>=◌,
}
use georesearch_dsh.Dict.{get, values, or_empty}
use georesearch_dsh.Contracts.Evidence.{EvidenceRecord, EvidenceRelation}
use georesearch_dsh.Contracts.Validation.{ReviewRecord}
use georesearch_dsh.Contracts.Claim.{
  ClaimType, ClaimSupportState, ClaimProposal, ClaimCalculation, ClaimCalculationProposal,
  ClaimSupportRef, ClaimIntegrity, ClaimValidity,
}
use georesearch_dsh.Contracts.State.{ProjectReducerState}
use georesearch_dsh.Service.Host.{Host}
use georesearch_dsh.Service.Guards.{holds, is_current_subject, key_of}
use georesearch_dsh.Service.Reviews.{keys, is_accept, passed_keys}
use georesearch_dsh.Service.Claims.Calculation.{calculate_claim}
use georesearch_dsh.Service.Claims.References.{
  claim_support_ref_current, is_evidence_ref, is_result_ref, operands, claim_review_subject_keys,
  review_superseded, has_hard_finding, claim_sections_valid,
}

pub record ClaimSupportAssessment : Type 0 where
  pub support_state : ClaimSupportState
  pub integrity : ClaimIntegrity
  pub validity : ClaimValidity
  pub calculation : Option ClaimCalculation

-- The relation of the evidence that a reference names, if it is on record.
abbrev relation_of : ProjectReducerState → ClaimSupportRef → Option EvidenceRelation
relation_of s r = relation (get (or_empty s.evidence) r.record_id)
  where
    relation : Option EvidenceRecord → Option EvidenceRelation
    relation none = none
    relation (some e) = some e.relation

abbrev contradicts : Option EvidenceRelation → Bool
contradicts (some EvidenceRelation.contradicts) = true
contradicts _ = false

abbrev supports : Option EvidenceRelation → Bool
supports (some EvidenceRelation.supports) = true
supports (some EvidenceRelation.partially_supports) = true
supports _ = false

module _ (h : Host) (s : ProjectReducerState) (p : ClaimProposal) where
  abbrev pub subjects : List String
  subjects = claim_review_subject_keys s p

  abbrev pub is_relevant : ReviewRecord → Bool
  is_relevant r = any (λ k. includes k subjects) (keys r.subject_refs)

  abbrev pub references_current : Bool
  references_current = all (claim_support_ref_current s) p.support_refs

  abbrev pub reports_current : Bool
  reports_current =
      all
        (λ k.
          holds (λ r. r.project_id == s.project_id && all (is_current_subject h s) r.subjects)
            (get (or_empty s.validation_reports) k))
        p.validation_report_ids

  abbrev pub reviews_current : Bool
  reviews_current =
      all
        (λ k.
          holds
            (λ r.
              r.project_id == s.project_id
              && not (review_superseded s r.review_id)
              && all (is_current_subject h s) r.subject_refs)
            (get (or_empty s.review_records) k))
        p.review_record_ids

  abbrev pub reviews_relevant : Bool
  reviews_relevant =
      all (λ k. holds is_relevant (get (or_empty s.review_records) k)) p.review_record_ids

  -- No review that stands and is relevant is left out.
  abbrev pub reviews_complete : Bool
  reviews_complete =
      all (λ r. includes r.review_id p.review_record_ids)
        (filter_if
          (λ r.
            r.project_id == s.project_id && not (review_superseded s r.review_id) && is_relevant r)
          (values (or_empty s.review_records)))

  unfoldable pub is_intact : Bool
  is_intact =
      references_current
      && reports_current
      && reviews_current
      && reviews_relevant
      && reviews_complete
      && claim_sections_valid p

  abbrev pub passed : List String
  passed = passed_keys s p.validation_report_ids

  -- The keys of the subjects of some of the reviews.
  unfoldable pub reviewed_keys : List String → List String
  reviewed_keys [] = []
  reviewed_keys (k ∷ ks) = keys_of (get (or_empty s.review_records) k) ++ reviewed_keys ks
    where
      keys_of : Option ReviewRecord → List String
      keys_of none = []
      keys_of (some r) = keys r.subject_refs

  unfoldable pub accepted_review : Bool
  unfolding reviewed_keys
  accepted_review =
      not (is_empty subjects)
      && not (is_empty p.review_record_ids)
      && all
          (λ k.
            holds (λ r. is_accept r.recommendation && not (has_hard_finding r))
              (get (or_empty s.review_records) k))
          p.review_record_ids
      && all (λ k. includes k (reviewed_keys p.review_record_ids)) subjects

  abbrev pub evidence_refs : List ClaimSupportRef
  evidence_refs = filter_if (λ r. is_evidence_ref r.kind) p.support_refs

  abbrev pub result_refs : List ClaimSupportRef
  result_refs = filter_if (λ r. is_result_ref r.kind) p.support_refs

  abbrev pub evidence_validated : Bool
  evidence_validated =
      not (is_empty evidence_refs)
      && all (λ r. includes (key_of "evidence" r.record_id r.digest) passed) evidence_refs

  abbrev pub results_validated : Bool
  results_validated =
      not (is_empty result_refs)
      && all (λ r. includes (key_of "result" r.record_id r.digest) passed) result_refs

  abbrev pub operands_validated : Bool
  operands_validated =
      not (is_empty (operands p.calculation))
      && all
          (λ k.
            holds (λ r. includes (key_of "result" k r.digest) passed) (get (or_empty s.results) k))
          (operands p.calculation)

  abbrev pub has_calculation : Option ClaimCalculation → Bool
  has_calculation none = false
  has_calculation (some c) = true

  -- The `switch` on the type of the claim.
  unfoldable pub support_state : Option ClaimCalculation → ClaimSupportState
  unfolding accepted_review
  support_state calculation = elim p.claim_type [
    | ClaimType.literature_fact ↦
        if any (λ r. contradicts (relation_of s r)) evidence_refs
        then ClaimSupportState.contradicted
        else if is_empty evidence_refs || any (λ r. not (supports (relation_of s r))) evidence_refs
        then ClaimSupportState.insufficient_evidence
        else if evidence_validated && accepted_review
        then ClaimSupportState.independently_checked
        else ClaimSupportState.source_backed
    | ClaimType.experimental_observation ↦
        if not results_validated
        then ClaimSupportState.insufficient_evidence
        else if accepted_review
        then ClaimSupportState.independently_checked
        else ClaimSupportState.experiment_supported
    | ClaimType.derived_calculation ↦
        if has_calculation calculation && operands_validated && accepted_review
        then ClaimSupportState.independently_checked
        else ClaimSupportState.insufficient_evidence
    | ClaimType.scientific_inference ↦
        if is_empty p.support_refs || is_empty p.limitations
        then ClaimSupportState.insufficient_evidence
        else if accepted_review
        then ClaimSupportState.independently_checked
        else if results_validated
        then ClaimSupportState.experiment_supported
        else if not (is_empty evidence_refs)
        then ClaimSupportState.source_backed
        else ClaimSupportState.insufficient_evidence
    | ClaimType.hypothesis ↦ ClaimSupportState.proposed
    | ClaimType.speculation ↦ ClaimSupportState.proposed
  ]

  abbrev assessment : Option ClaimCalculation → ClaimSupportAssessment
  assessment calculation = record {
    support_state =
        if is_intact then support_state calculation else ClaimSupportState.insufficient_evidence;
    integrity = if is_intact then ClaimIntegrity.verified else ClaimIntegrity.failed;
    validity =
        if references_current && reports_current && reviews_current
        then ClaimValidity.current
        else ClaimValidity.stale;
    calculation = calculation;
  }

  abbrev calculated : Option ClaimCalculationProposal → Result (Option ClaimCalculation)
  calculated none = ok none
  calculated (some c) = calculate_claim h s c >>= λ value. ok (some value)

  unfoldable pub assess_claim_support : Result ClaimSupportAssessment
  unfolding is_intact support_state
  assess_claim_support = calculated p.calculation >>= λ c. ok (assessment c)
