-- ===== src/Contracts/Operation.antt =====
-- The records of the operation store (packages/contracts/src/phase2.ts).
use georesearch_dsh.Prelude.{Bool, Option, String}
use georesearch_dsh.Contracts.Json.{Json, Sha256Digest}

pub data OperationState : Type 0 where
  in_progress committed failed_final recovery_required : OperationState

pub record OperationErrorRecord : Type 0 where
  pub code : String
  pub message : String
  pub retryable : Bool

pub record OperationRecord : Type 0 where
  pub operation_key : Sha256Digest
  pub request_digest : Sha256Digest
  pub operation : String
  pub state : OperationState
  pub created_at : String
  pub updated_at : String
  pub exact_result : Option Json
  pub exact_result_digest : Option Sha256Digest
  pub exact_error : Option OperationErrorRecord
