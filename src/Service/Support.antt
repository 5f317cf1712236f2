-- ===== src/Service/Support.antt =====
-- What the support of a claim that is on file rests on.
use georesearch_dsh.Prelude.{
  String, ◌≡◌, refl, sym, subst, Bool, true, false, ◌&&◌, Option, List, arith, any, all, not,
  is_empty, Result, ok, err,
}
use georesearch_dsh.Contracts.Claim.{
  ClaimType, ClaimSupportState, ClaimProposal, ClaimRecord, ClaimIntegrity, ClaimValidity,
  ClaimCalculation, ApprovalState, ApprovalOutcome, ApprovalSource,
}
use georesearch_dsh.Contracts.State.{ProjectReducerState, ProjectStateFile}
use georesearch_dsh.Contracts.Event.{ProjectEvent}
use georesearch_dsh.Store.Disk.{Disk, Encoding}
use georesearch_dsh.Store.Synced.{IsSynced}
use georesearch_dsh.Service.Commit.{Proposal, Envelope, guard, commit_proposal}
use georesearch_dsh.Service.Committing.{decided_ok}
use georesearch_dsh.Service.Host.{Host}
use georesearch_dsh.Service.Guards.{Decision}
use georesearch_dsh.Service.Claims.References.{
  proposal_of, claim_support_ref_current, claim_sections_valid,
}
use georesearch_dsh.Service.Claims.Assessment.{
  ClaimSupportAssessment, assess_claim_support, support_state, accepted_review, is_intact,
  references_current, results_validated, evidence_refs,
}
use georesearch_dsh.Service.Claims.{
  claim_guard, claim_eligible_for_writing, active_hard_review, support_suffices, same_support,
  eligible_by,
}

module _ (h : Host) (s : ProjectReducerState) (p : ClaimProposal) where
  abbrev is_conjecture : ClaimType → Bool
  is_conjecture ClaimType.hypothesis = true
  is_conjecture ClaimType.speculation = true
  is_conjecture _ = false

  -- What the support of a claim promises: a check, that there are reviews, that all of them accept
  -- and none finds an error, and that they cover all subjects of the claim; an experiment, that all
  -- results that the claim names have passed a validation; sources, that it names evidence. A claim
  -- that is only proposed is a hypothesis or a speculation, and meant for the sections that may have
  -- such a claim. No other support shows anything.
  unfoldable pub is_shown : ClaimSupportState → Bool
  is_shown ClaimSupportState.independently_checked = accepted_review h s p
  is_shown ClaimSupportState.experiment_supported = results_validated h s p
  is_shown ClaimSupportState.source_backed = not (is_empty (evidence_refs h s p))
  is_shown ClaimSupportState.proposed = is_conjecture p.claim_type && claim_sections_valid p
  is_shown _ = false

  support_state-is_shown :
      (c : Option ClaimCalculation)
      → claim_sections_valid p ≡ true
      → support_suffices p.claim_type (support_state h s p c) ≡ true
      → is_shown (support_state h s p c) ≡ true
  unfolding support_state is_shown support_suffices
  support_state-is_shown c sections enough = ground (arith, sections, enough)

same_support-eq : (a b : ClaimSupportState) → same_support a b ≡ true → a ≡ b
same_support-eq a b h = ground (arith, h)

-- An approved claim, and what must hold of it on the state.
pub record IsWellFounded (h : Host) (s : ProjectReducerState) (claim : ClaimRecord) : Type 0 where
  pub outcome : claim.approval.outcome ≡ ApprovalOutcome.approved
  pub source : claim.approval.source ≡ ApprovalSource.user
  pub integrity : claim.integrity ≡ ClaimIntegrity.verified
  pub validity : claim.validity ≡ ClaimValidity.current
  pub current : all (claim_support_ref_current s) claim.support_refs ≡ true
  pub no_hard_review : any (active_hard_review s) claim.review_record_ids ≡ false
  pub suffices : support_suffices claim.claim_type claim.support_state ≡ true
  pub shown : is_shown h s (proposal_of claim) claim.support_state ≡ true

intact_support :
    (h : Host) (s : ProjectReducerState) (p : ClaimProposal) (a : ClaimSupportAssessment)
    → assess_claim_support h s p ≡ ok a
    → a.integrity ≡ ClaimIntegrity.verified
    → support_suffices p.claim_type a.support_state ≡ true
    → (references_current h s p ≡ true) × (is_shown h s p a.support_state ≡ true)
unfolding assess_claim_support is_intact
intact_support h s p a k verified enough =
    ground (arith, k, verified, enough, support_state-is_shown h s p a.calculation)

-- The assessment on which a claim is eligible.
eligible_parts :
    (h : Host) (s : ProjectReducerState) (claim : ClaimRecord)
    → claim_eligible_for_writing h claim s ≡ ok true
    → (a : ClaimSupportAssessment) × (assess_claim_support h s (proposal_of claim) ≡ ok a)
      × (eligible_by h claim s a ≡ true)
unfolding claim_eligible_for_writing
eligible_parts h s claim k = go (assess_claim_support h s (proposal_of claim)) refl
  where
    go :
        (r : Result ClaimSupportAssessment)
        → assess_claim_support h s (proposal_of claim) ≡ r
        → (a : ClaimSupportAssessment) × (assess_claim_support h s (proposal_of claim) ≡ ok a)
          × (eligible_by h claim s a ≡ true)
    go (err e) f = ground (arith, k, f)
    go (ok a) f = (a, f, ground (arith, k, f))

-- A claim that is eligible for writing is well founded.
pub eligible-IsWellFounded :
    (h : Host) (s : ProjectReducerState) (claim : ClaimRecord)
    → claim_eligible_for_writing h claim s ≡ ok true
    → IsWellFounded h s claim
unfolding claim_eligible_for_writing proposal_of
eligible-IsWellFounded h s claim k =
    let (a, assessed, eligible) = eligible_parts h s claim k in
    let same = same_support-eq a.support_state claim.support_state (ground (arith, eligible)) in
    let (current, shown) =
      intact_support h s (proposal_of claim) a assessed (ground (arith, eligible)) (
        subst (λ x. support_suffices claim.claim_type x ≡ true) (sym same)
          (ground (arith, eligible))) in
    record {
      outcome = ground (arith, k);
      source = ground (arith, k);
      integrity = ground (arith, k);
      validity = ground (arith, k);
      current = current;
      no_hard_review = ground (arith, eligible);
      suffices = ground (arith, eligible);
      shown = subst (λ x. is_shown h s (proposal_of claim) x ≡ true) same shown;
    }

approved_checked :
    (h : Host) (s : ProjectReducerState) (claim : ClaimRecord) (d : Decision)
    → claim.approval_state ≡ ApprovalState.approved
    → claim_guard h claim s ≡ ok d
    → claim_eligible_for_writing h claim s ≡ ok true
unfolding claim_guard
approved_checked h s claim d approved k = ground (arith, approved, k)

module _ (h : Host) (p : Encoding) (project_id : String) (disk : Disk) (events : List ProjectEvent)
    (latest : ProjectEvent) (state : ProjectReducerState)
    (synced : IsSynced p project_id disk events latest state) where
  -- If a claim that is marked as approved is committed, on a project whose snapshot agrees with its
  -- log, a user has approved it, all that it refers to is current, none of its reviews stands with an
  -- error, and its support is enough for a claim of its type. The support is shown by reviews that all
  -- accept and cover its subjects, by results that all have passed a validation, or by evidence; or
  -- the claim is a hypothesis or a speculation, is only proposed, and is meant for sections that may
  -- have such a claim.
  pub approved_claim_is_founded :
      (e : Envelope) (claim : ClaimRecord) (time : String) (f : ProjectStateFile)
      → claim.approval_state ≡ ApprovalState.approved
      → (commit_proposal h p project_id e (Proposal.claim claim) time disk).0 ≡ ok f
      → IsWellFounded h state claim
  unfolding guard
  approved_claim_is_founded e claim time f approved done =
      let (d, decided) =
        decided_ok h p project_id disk events latest state synced e (Proposal.claim claim) time f
          done in
      eligible-IsWellFounded h state claim (approved_checked h state claim d approved decided)
