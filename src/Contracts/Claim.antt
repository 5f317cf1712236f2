-- ===== src/Contracts/Claim.antt =====
-- Claims and what supports them (packages/contracts/src/phase6.ts).
use georesearch_dsh.Prelude.{List, Option, String, ℕ}
use georesearch_dsh.Contracts.Json.{Number, Sha256Digest}

pub data ClaimType : Type 0 where
  literature_fact experimental_observation derived_calculation scientific_inference hypothesis
        speculation :
      ClaimType

pub data ClaimSupportState : Type 0 where
  proposed source_backed experiment_supported independently_checked contradicted
        insufficient_evidence rejected :
      ClaimSupportState

pub data ManuscriptSectionId : Type 0 where
  abstract introduction related_work methods results discussion conclusion future_work :
      ManuscriptSectionId

pub data SupportKind : Type 0 where
  evidence result claim hypothesis : SupportKind

pub record ClaimSupportRef : Type 0 where
  pub kind : SupportKind
  pub record_id : String
  pub digest : Sha256Digest

pub data CalculationOperation : Type 0 where
  difference ratio percent_change mean : CalculationOperation

pub record ClaimCalculationProposal : Type 0 where
  pub operation : CalculationOperation
  pub operand_result_ids : List String

pub record ClaimCalculation : Type 0 where
  pub operation : CalculationOperation
  pub operand_result_ids : List String
  pub value : Number
  pub input_digests : List Sha256Digest

pub data ApprovalState : Type 0 where
  pending approved rejected : ApprovalState

pub data ApprovalOutcome : Type 0 where
  pending approved rejected cancelled unavailable : ApprovalOutcome

pub data ApprovalSource : Type 0 where
  user coordinator : ApprovalSource

pub record ClaimProposal : Type 0 where
  pub claim_id : String
  pub statement : String
  pub claim_type : ClaimType
  pub support_refs : List ClaimSupportRef
  pub calculation : Option ClaimCalculationProposal
  pub limitations : List String
  pub intended_sections : List ManuscriptSectionId
  pub validation_report_ids : List String
  pub review_record_ids : List String

pub record ClaimApprovalRecord : Type 0 where
  pub requested : ApprovalState
  pub outcome : ApprovalOutcome
  pub source : ApprovalSource
  pub call_id : String
  pub decided_at : String

pub data ClaimIntegrity : Type 0 where
  verified failed : ClaimIntegrity

pub data ClaimValidity : Type 0 where
  current stale : ClaimValidity

pub record ClaimRecord : Type 0 where
  pub claim_id : String
  pub statement : String
  pub claim_type : ClaimType
  pub support_refs : List ClaimSupportRef
  pub limitations : List String
  pub intended_sections : List ManuscriptSectionId
  pub validation_report_ids : List String
  pub review_record_ids : List String
  pub project_id : String
  pub workspace_id : String
  pub workspace_binding_version : ℕ
  pub calculation : Option ClaimCalculation
  pub support_state : ClaimSupportState
  pub approval_state : ApprovalState
  pub integrity : ClaimIntegrity
  pub validity : ClaimValidity
  pub approval : ClaimApprovalRecord
  pub committed_at : String
  pub digest : Sha256Digest
