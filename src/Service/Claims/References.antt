-- ===== src/Service/Claims/References.antt =====
-- What a claim may rest on: its references, its reviews and its sections.
use georesearch_dsh.Prelude.{
  String, Bool, true, false, ◌&&◌, Option, none, some, List, [], ◌∷◌, ◌++◌, ◌==◌, any, all,
  includes,
}
use georesearch_dsh.Dict.{get, values, or_empty}
use georesearch_dsh.Contracts.Artifact.{ArtifactRecord}
use georesearch_dsh.Contracts.Evidence.{EvidenceRecord, ReviewStatus}
use georesearch_dsh.Contracts.Experiment.{ResultRecord}
use georesearch_dsh.Contracts.Validation.{ReviewRecord, Severity}
use georesearch_dsh.Contracts.Claim.{
  ClaimType, ClaimProposal, ClaimRecord, ClaimCalculation, ClaimCalculationProposal,
  ClaimSupportRef, ClaimIntegrity, ClaimValidity, ApprovalState, ManuscriptSectionId, SupportKind,
}
use georesearch_dsh.Contracts.State.{ProjectReducerState}
use georesearch_dsh.Service.Guards.{holds, is_sound, key_of}

abbrev calculation_of : Option ClaimCalculation → Option ClaimCalculationProposal
calculation_of none = none
calculation_of (some c) =
    some (record { operation = c.operation; operand_result_ids = c.operand_result_ids })

-- A claim as the proposal that it extends.
unfoldable pub proposal_of : ClaimRecord → ClaimProposal
proposal_of c = record {
  claim_id = c.claim_id;
  statement = c.statement;
  claim_type = c.claim_type;
  support_refs = c.support_refs;
  calculation = calculation_of c.calculation;
  limitations = c.limitations;
  intended_sections = c.intended_sections;
  validation_report_ids = c.validation_report_ids;
  review_record_ids = c.review_record_ids;
}

abbrev pub is_verified_claim : ClaimIntegrity → Bool
is_verified_claim ClaimIntegrity.verified = true
is_verified_claim ClaimIntegrity.failed = false

abbrev pub is_current_claim : ClaimValidity → Bool
is_current_claim ClaimValidity.current = true
is_current_claim ClaimValidity.stale = false

abbrev is_approved : ApprovalState → Bool
is_approved ApprovalState.approved = true
is_approved _ = false

abbrev pub is_accepted : ReviewStatus → Bool
is_accepted ReviewStatus.accepted = true
is_accepted _ = false

abbrev pub evidence_is_current : ProjectReducerState → ClaimSupportRef → EvidenceRecord → Bool
evidence_is_current s reference evidence =
    evidence.digest == reference.digest
    && is_accepted evidence.review_status
    && holds (λ source. true) (get (or_empty s.sources) evidence.source_id)
    && holds (λ (a : ArtifactRecord). a.digest == evidence.artifact_digest && is_sound a)
        (get s.artifacts evidence.artifact_id)

-- `claimSupportRefCurrent`
unfoldable pub claim_support_ref_current : ProjectReducerState → ClaimSupportRef → Bool
claim_support_ref_current s reference = elim reference.kind [
  | SupportKind.evidence ↦
      holds (evidence_is_current s reference) (get (or_empty s.evidence) reference.record_id)
  | SupportKind.result ↦
      holds (λ r. r.digest == reference.digest) (get (or_empty s.results) reference.record_id)
  | SupportKind.claim ↦
      holds
        (λ c.
          c.digest == reference.digest
          && is_approved c.approval_state
          && is_verified_claim c.integrity
          && is_current_claim c.validity)
        (get (or_empty s.claims) reference.record_id)
  | SupportKind.hypothesis ↦
      holds
        (λ brief.
          brief.digest == reference.digest
          && any (λ y. y.hypothesis_id == reference.record_id) brief.hypotheses)
        s.research_brief
]

abbrev pub is_evidence_ref : SupportKind → Bool
is_evidence_ref SupportKind.evidence = true
is_evidence_ref _ = false

abbrev pub is_result_ref : SupportKind → Bool
is_result_ref SupportKind.result = true
is_result_ref _ = false

abbrev pub operands : Option ClaimCalculationProposal → List String
operands none = []
operands (some c) = c.operand_result_ids

abbrev pub support_keys : List ClaimSupportRef → List String
support_keys [] = []
support_keys (r ∷ rs) =
    let rest = support_keys rs in
    elim r.kind [
      | SupportKind.evidence ↦ key_of "evidence" r.record_id r.digest ∷ rest
      | SupportKind.result ↦ key_of "result" r.record_id r.digest ∷ rest
      | SupportKind.claim ↦ rest
      | SupportKind.hypothesis ↦ rest
    ]

abbrev found_key : String → Option ResultRecord → List String → List String
found_key k none rest = rest
found_key k (some r) rest = key_of "result" k r.digest ∷ rest

abbrev pub operand_keys : ProjectReducerState → List String → List String
operand_keys s [] = []
operand_keys s (k ∷ ks) = found_key k (get (or_empty s.results) k) (operand_keys s ks)

-- `claimReviewSubjectKeys`
unfoldable pub claim_review_subject_keys : ProjectReducerState → ClaimProposal → List String
claim_review_subject_keys s p =
    support_keys p.support_refs ++ operand_keys s (operands p.calculation)

-- `reviewSuperseded`
unfoldable pub review_superseded : ProjectReducerState → String → Bool
review_superseded s k =
    any (λ r. includes k r.supersedes_review_ids) (values (or_empty s.review_records))

abbrev is_hard : Severity → Bool
is_hard Severity.hard = true
is_hard Severity.error = true
is_hard _ = false

abbrev pub has_hard_finding : ReviewRecord → Bool
has_hard_finding r = any (λ f. is_hard f.severity) r.findings

abbrev is_opening : ManuscriptSectionId → Bool
is_opening ManuscriptSectionId.introduction = true
is_opening ManuscriptSectionId.methods = true
is_opening _ = false

abbrev is_outlook : ManuscriptSectionId → Bool
is_outlook ManuscriptSectionId.discussion = true
is_outlook ManuscriptSectionId.future_work = true
is_outlook _ = false

-- `claimSectionsValid`
unfoldable pub claim_sections_valid : ClaimProposal → Bool
claim_sections_valid p = elim p.claim_type [
  | ClaimType.hypothesis ↦ all is_opening p.intended_sections
  | ClaimType.speculation ↦ all is_outlook p.intended_sections
  | _ ↦ true
]
