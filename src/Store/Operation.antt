-- ===== src/Store/Operation.antt =====
-- Operations that are executed once: `executeOperation` and the files in which it keeps what became
-- of an operation (store.ts). A file is named by the operation's key. The mutex of the operation
-- is a parameter; callbacks do not touch the operation's file.
pub mod Once
pub mod Resumed
use georesearch_dsh.Prelude.{
  ℕ, String, Bool, true, false, ◌&&◌, not, Option, none, some, List, ◌==◌, nat_eq, includes,
  if◌then◌else◌, Result, ok, err, Failure, geo_research_error, other_error,
}
use georesearch_dsh.Dict.{Dict, get, put}
use georesearch_dsh.Contracts.Json.{Json, Sha256Digest}
use georesearch_dsh.Contracts.Operation.{OperationState, OperationErrorRecord, OperationRecord}
use georesearch_dsh.Store.Disk.{is_sha256_digest}
use georesearch_dsh.Store.Log.{recovery_required}
use georesearch_dsh.Store.Commit.{is_blank}

-- An error with its message.
pub record Thrown : Type 0 where
  pub failure : Failure
  pub message : String

-- What `storedOperationError` makes of the record of an operation that failed for good. The default
-- message, of a record without an error, names the key of the record.
pub data StoredError : Type 0 where
  stored : OperationErrorRecord → StoredError
  without_error : Sha256Digest → StoredError

pub data Outcome : Type 0 where
  returned : Json → Outcome
  thrown : Thrown → Outcome
  stored_error : StoredError → Outcome
  store_error : Failure → Outcome

-- What a callback returns or throws.
pub data Answer : Type 0 where
  value : Json → Answer
  raise : Thrown → Answer

-- The text of a file: a record by its schema version, another object, other JSON, or no JSON.
pub data OperationText : Type 0 where
  operation_file : ℕ → OperationRecord → OperationText
  misfit not_object not_json : OperationText

abbrev pub digest_or_none : Option Sha256Digest → Option Sha256Digest
digest_or_none none = none
digest_or_none (some d) = if is_sha256_digest d then some d else none

unfoldable pub read_operation : OperationText → Sha256Digest → Result OperationRecord
read_operation (operation_file schema_version r) expected_key =
    if not (
      nat_eq schema_version 1
      && is_sha256_digest r.operation_key
      && is_sha256_digest r.request_digest)
    then err recovery_required
    else if not (r.operation_key == expected_key)
    then err recovery_required
    else ok (record r { exact_result_digest = digest_or_none r.exact_result_digest })
read_operation misfit expected_key = err recovery_required
read_operation not_object expected_key = err recovery_required
read_operation not_json expected_key = err other_error

-- How a failure is recorded: for good, or to be recovered from.
pub record Classified : Type 0 where
  pub final : Bool
  pub error : OperationErrorRecord

unfoldable pub default_operation_error : Thrown → Classified
default_operation_error e = elim e.failure [
  | geo_research_error code ↦ record {
    final = true;
    error = record { code = code; message = e.message; retryable = false };
  }
  | other_error ↦ record {
    final = false;
    error = record { code = "OPERATION_RECOVERY_REQUIRED"; message = e.message; retryable = true };
  }
]

abbrev pub stored_operation_error : OperationRecord → Option OperationErrorRecord → StoredError
stored_operation_error r none = without_error r.operation_key
stored_operation_error r (some e) = stored e

-- The readings of the clock in one call.
pub record Times : Type 0 where
  pub started : String
  pub marked : String
  pub ended : String

pub record Call : Type 0 where
  pub operation_key : Sha256Digest
  pub request_digest : Sha256Digest
  pub operation : String

abbrev state_if : Bool → OperationState
state_if final = if final then OperationState.failed_final else OperationState.recovery_required

unfoldable pub initial_record : Call → String → OperationRecord
initial_record c time = record {
  operation_key = c.operation_key;
  request_digest = c.request_digest;
  operation = c.operation;
  state = OperationState.in_progress;
  created_at = time;
  updated_at = time;
  exact_result = none;
  exact_result_digest = none;
  exact_error = none;
}

-- `W` is the rest of the world, on which a callback acts.
abbrev pub Callback : Type 0 → Type 0
Callback W = W → Answer × W

-- `OperationExecutionOptions`
pub record Options (W : Type 0) : Type 0 where
  pub recover : Option (OperationRecord → Callback W)
  pub classify_error : Option (Thrown → Classified)

unfoldable pub failed_record : OperationRecord → String → Classified → OperationRecord
failed_record r time c = record r {
  state = state_if c.final;
  updated_at = time;
  exact_error = some c.error;
}

abbrev classify : Option (Thrown → Classified) → Thrown → Classified
classify none e = default_operation_error e
classify (some f) e = f e

abbrev pub Files : Type 0
Files = Dict OperationText

abbrev pub write : Files → Call → OperationRecord → Files
write files c r = put files c.operation_key (operation_file 1 r)

abbrev pub operation_recovery_required : Outcome
operation_recovery_required = store_error (geo_research_error "OPERATION_RECOVERY_REQUIRED")

abbrev marked_record : OperationRecord → String → OperationRecord
marked_record r time = record r { state = OperationState.recovery_required; updated_at = time }

abbrev in_progress_error : Outcome
in_progress_error = store_error (geo_research_error "OPERATION_IN_PROGRESS")

-- `lockUnavailable`
abbrev lock_failure : Failure → Outcome
lock_failure (geo_research_error code) =
    if code == "PROJECT_WRITE_LOCK_TIMEOUT"
    then in_progress_error
    else store_error (geo_research_error code)
lock_failure other_error = store_error other_error

unfoldable pub call_valid : Call → Bool
call_valid c =
    is_sha256_digest c.operation_key
    && is_sha256_digest c.request_digest
    && not (is_blank c.operation)

module _ (digest_json : Json → Sha256Digest) where
  unfoldable pub committed_record : OperationRecord → String → Json → OperationRecord
  committed_record r time result = record r {
    state = OperationState.committed;
    updated_at = time;
    exact_result = some result;
    exact_result_digest = some (digest_json result);
    exact_error = none;
  }

  -- `case 'committed'`
  abbrev same_digest : Json → Option Sha256Digest → Bool
  same_digest v none = false
  same_digest v (some d) = digest_json v == d

  abbrev exact_result : Option Json → Option Sha256Digest → Outcome
  exact_result none d = store_error recovery_required
  exact_result (some v) d = if same_digest v d then returned v else store_error recovery_required

module _ {W : Type 0} (digest_json : Json → Sha256Digest) where
  -- The action has run.
  unfoldable pub settle_action : Call → Times → Options W → Files → Answer × W → Outcome × Files × W
  unfolding committed_record failed_record initial_record
  settle_action c t o files (value v, w) = (
    returned v,
    write files c (committed_record digest_json (initial_record c t.started) t.ended v),
    w,
  )
  settle_action c t o files (raise e, w) = (
    thrown e,
    write files c
        (failed_record (initial_record c t.started) t.ended (classify o.classify_error e)),
    w,
  )

  abbrev settle_recovery : Call → Times → OperationRecord → Files → Answer × W → Outcome × Files × W
  settle_recovery c t r files (value v, w) =
      (returned v, write files c (committed_record digest_json r t.ended v), w)
  settle_recovery c t r files (raise e, w) = (thrown e, files, w)

  -- `case 'recovery-required'`
  unfoldable pub recover_operation :
      Call → Times → Options W → OperationRecord → Files → W → Outcome × Files × W
  unfolding committed_record
  recover_operation c t o r files w = elim o.recover [
    | none ↦ (operation_recovery_required, files, w)
    | some recover ↦ settle_recovery c t r files (recover r w)
  ]

  -- A record that is still in progress is of a call that died.
  unfoldable pub resume_state :
      Call → Times → Options W → OperationRecord → Files → W → Outcome × Files × W
  unfolding recover_operation
  resume_state c t o r files w = elim r.state [
    | OperationState.in_progress ↦
        recover_operation c t o (marked_record r t.marked)
          (write files c (marked_record r t.marked)) w
    | OperationState.committed ↦
        (exact_result digest_json r.exact_result r.exact_result_digest, files, w)
    | OperationState.failed_final ↦
        (stored_error (stored_operation_error r r.exact_error), files, w)
    | OperationState.recovery_required ↦ recover_operation c t o r files w
  ]

  unfoldable pub resume :
      Call → Times → Options W → Result OperationRecord → Files → W → Outcome × Files × W
  unfolding resume_state
  resume c t o (err e) files w = (store_error e, files, w)
  resume c t o (ok r) files w =
      if r.request_digest == c.request_digest
      then resume_state c t o r files w
      else (store_error (geo_research_error "IDEMPOTENCY_CONFLICT"), files, w)

  -- Who creates the file owns the operation.
  unfoldable pub execute_found :
      Call → Times → Callback W → Options W → Option OperationText → Files → W → Outcome × Files × W
  unfolding resume settle_action initial_record
  execute_found c t action o none files w =
      settle_action c t o (write files c (initial_record c t.started)) (action w)
  execute_found c t action o (some text) files w =
      resume c t o (read_operation text c.operation_key) files w

  unfoldable pub execute_operation_locked :
      Call → Times → Callback W → Options W → Files → W → Outcome × Files × W
  unfolding execute_found
  execute_operation_locked c t action o files w =
      execute_found c t action o (get files c.operation_key) files w

  abbrev locked :
      Call → Times → Callback W → Options W → Option Failure → Files → W → Outcome × Files × W
  locked c t action o none files w = execute_operation_locked c t action o files w
  locked c t action o (some e) files w = (lock_failure e, files, w)

  -- `active` has the keys of the calls that this process is in the middle of; `mutex` is the failure
  -- to acquire the mutex of the operation, if there is one.
  unfoldable pub execute_operation :
      Call
      → Times
      → Callback W
      → Options W
      → List Sha256Digest
      → Option Failure
      → Files
      → W
      → Outcome × Files × W
  unfolding execute_operation_locked
  execute_operation c t action o active mutex files w =
      if not (call_valid c)
      then (store_error other_error, files, w)
      else if includes c.operation_key active
      then (in_progress_error, files, w)
      else locked c t action o mutex files w
