-- ===== src/Service/Claims.antt =====
-- `commitClaimRecord`: what it checks, with `assessClaimSupport` and `claimEligibleForWriting`.
pub mod Calculation
pub mod References
pub mod Assessment
use georesearch_dsh.Prelude.{
  ℕ, nat_eq, String, Bool, true, false, ◌&&◌, ◌||◌, not, Option, none, some, ◌==◌, any,
  if◌then◌else◌, Result, ok, err, ◌>>=◌, Failure, geo_research_error, other_error,
}
use georesearch_dsh.Dict.{get, or_empty}
use georesearch_dsh.Contracts.Validation.{ReviewRecord}
use georesearch_dsh.Contracts.Claim.{
  ClaimType, ClaimSupportState, ClaimRecord, ClaimIntegrity, ClaimValidity, ApprovalState,
  ApprovalOutcome, ApprovalSource,
}
use georesearch_dsh.Contracts.State.{ProjectReducerState}
use georesearch_dsh.Service.Host.{Host, Canonical, digest_json}
use georesearch_dsh.Service.Guards.{Decision, holds, settle, assert_current_binding}
use georesearch_dsh.Service.Reviews.{is_accept}
use georesearch_dsh.Service.Claims.Calculation.{claim_invalid, same_calculation}
use georesearch_dsh.Service.Claims.References.{
  proposal_of, review_superseded, has_hard_finding, is_verified_claim, is_current_claim,
}
use georesearch_dsh.Service.Claims.Assessment.{ClaimSupportAssessment, assess_claim_support}

-- `activeHardReview`
abbrev pub active_hard_review : ProjectReducerState → String → Bool
active_hard_review s k =
    holds
      (λ r. not (review_superseded s k) && (not (is_accept r.recommendation) || has_hard_finding r))
      (get (or_empty s.review_records) k)

abbrev support_rank : ClaimSupportState → ℕ
support_rank ClaimSupportState.proposed = 0
support_rank ClaimSupportState.source_backed = 1
support_rank ClaimSupportState.experiment_supported = 2
support_rank ClaimSupportState.independently_checked = 3
support_rank ClaimSupportState.contradicted = 4
support_rank ClaimSupportState.insufficient_evidence = 5
support_rank ClaimSupportState.rejected = 6

-- `a === b`
abbrev pub same_support : ClaimSupportState → ClaimSupportState → Bool
same_support a b = nat_eq (support_rank a) (support_rank b)

abbrev pub is_approved : ApprovalState → Bool
is_approved ApprovalState.approved = true
is_approved _ = false

abbrev pub is_rejected : ApprovalState → Bool
is_rejected ApprovalState.rejected = true
is_rejected _ = false

abbrev pub outcome_is_approved : ApprovalOutcome → Bool
outcome_is_approved ApprovalOutcome.approved = true
outcome_is_approved _ = false

abbrev pub outcome_is_rejected : ApprovalOutcome → Bool
outcome_is_rejected ApprovalOutcome.rejected = true
outcome_is_rejected _ = false

abbrev pub is_user : ApprovalSource → Bool
is_user ApprovalSource.user = true
is_user ApprovalSource.coordinator = false

-- The support that a claim of each type needs before it may be written about.
unfoldable pub support_suffices : ClaimType → ClaimSupportState → Bool
support_suffices ClaimType.literature_fact ClaimSupportState.source_backed = true
support_suffices ClaimType.literature_fact ClaimSupportState.independently_checked = true
support_suffices ClaimType.experimental_observation ClaimSupportState.experiment_supported = true
support_suffices ClaimType.experimental_observation ClaimSupportState.independently_checked = true
support_suffices ClaimType.derived_calculation ClaimSupportState.independently_checked = true
support_suffices ClaimType.scientific_inference ClaimSupportState.independently_checked = true
support_suffices ClaimType.hypothesis ClaimSupportState.proposed = true
support_suffices ClaimType.speculation ClaimSupportState.proposed = true
support_suffices _ _ = false

module _ (h : Host) where
  abbrev pub eligible_by : ClaimRecord → ProjectReducerState → ClaimSupportAssessment → Bool
  eligible_by claim s a =
      is_verified_claim a.integrity
      && is_current_claim a.validity
      && same_support a.support_state claim.support_state
      && same_calculation a.calculation claim.calculation
      && not (any (active_hard_review s) claim.review_record_ids)
      && support_suffices claim.claim_type claim.support_state

  -- `claimEligibleForWriting`, which throws where the assessment does.
  unfoldable pub claim_eligible_for_writing : ClaimRecord → ProjectReducerState → Result Bool
  claim_eligible_for_writing claim s =
      if not (
        is_approved claim.approval_state
        && outcome_is_approved claim.approval.outcome
        && is_user claim.approval.source
        && is_verified_claim claim.integrity
        && is_current_claim claim.validity)
      then ok false
      else assess_claim_support h s (proposal_of claim) >>= λ a. ok (eligible_by claim s a)

  unfoldable pub claim_precheck : String → ClaimRecord → Result (Unit {0})
  unfolding digest_json
  claim_precheck project_id claim =
      if not (digest_json h (Canonical.claim_body (record claim { digest = "" })) == claim.digest)
      then err other_error
      else if not (claim.project_id == project_id)
      then err other_error
      else ok tt

  abbrev same_integrity : ClaimIntegrity → ClaimIntegrity → Bool
  same_integrity ClaimIntegrity.verified b = is_verified_claim b
  same_integrity ClaimIntegrity.failed b = not (is_verified_claim b)

  abbrev same_validity : ClaimValidity → ClaimValidity → Bool
  same_validity ClaimValidity.current b = is_current_claim b
  same_validity ClaimValidity.stale b = not (is_current_claim b)

  abbrev pub claim_matches : ClaimRecord → ClaimSupportAssessment → Bool
  claim_matches claim a =
      same_support claim.support_state
        (if is_rejected claim.approval_state then ClaimSupportState.rejected else a.support_state)
      && same_integrity claim.integrity a.integrity
      && same_validity claim.validity a.validity
      && same_calculation claim.calculation a.calculation

  -- `claim.approval.outcome !== 'approved' || ... || !claimEligibleForWriting(claim, state)`
  abbrev pub check_approval : ClaimRecord → ProjectReducerState → Result (Unit {0})
  check_approval claim s =
      if not (is_approved claim.approval_state)
      then ok tt
      else if not (outcome_is_approved claim.approval.outcome && is_user claim.approval.source)
      then err (geo_research_error "CLAIM_APPROVAL_REQUIRED")
      else claim_eligible_for_writing claim s >>= λ eligible.
          if eligible then ok tt else err (geo_research_error "CLAIM_APPROVAL_REQUIRED")

  unfoldable pub claim_guard : ClaimRecord → ProjectReducerState → Result Decision
  unfolding claim_eligible_for_writing
  claim_guard claim s =
      assert_current_binding s claim.workspace_id claim.workspace_binding_version >>= λ u.
      assess_claim_support h s (proposal_of claim) >>= λ a.
      (if claim_matches claim a then ok (tt {0}) else err claim_invalid) >>= λ v.
      check_approval claim s >>= λ w.
      if is_rejected claim.approval_state && not (outcome_is_rejected claim.approval.outcome)
      then err claim_invalid
      else settle (get (or_empty s.claims) claim.claim_id)
          (λ existing. existing.digest == claim.digest) claim_invalid
