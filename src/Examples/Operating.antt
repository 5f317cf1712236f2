-- ===== src/Examples/Operating.antt =====
-- The theorems on operations at one operation, whose action counts how often it has run.
use georesearch_dsh.Prelude.{
  ℕ, suc, ◌≡◌, refl, none, some, [], eq_iff, geo_research_error, true, false,
}
use georesearch_dsh.Dict.{get}
use georesearch_dsh.Contracts.Json.{Json, boolean, Sha256Digest}
use georesearch_dsh.Contracts.Operation.{OperationRecord}
use georesearch_dsh.Store.Disk.{is_sha256_digest}
use georesearch_dsh.Store.Commit.{is_blank}
use georesearch_dsh.Store.Operation.{
  Thrown, value, raise, returned, thrown, stored_error, stored, store_error, Times, Call, Callback,
  Options, Files, write, initial_record, call_valid, execute_operation, operation_recovery_required,
  default_operation_error,
}
use georesearch_dsh.Store.Operation.Once.{
  operation_runs_once, failure_is_recorded, committed_files, failed_files, renamed,
}
use georesearch_dsh.Store.Operation.Resumed.{
  interrupted_is_not_repeated, interrupted_is_recovered, reused_key_is_refused, interrupted_files,
}
use georesearch_dsh.Examples.Data.{digest_a, digest_b, now}

abbrev digest_json : Json → Sha256Digest
digest_json v = digest_a

abbrev call : Call
call = record { operation_key = digest_a; request_digest = digest_b; operation = "upload" }

abbrev times : Times
times = record { started = now; marked = now; ended = now }

abbrev yes : Json
yes = boolean true

abbrev failure : Thrown
failure = record { failure = geo_research_error "PATH_POLICY"; message = "m" }

abbrev succeed : Callback ℕ
succeed n = (value yes, suc n)

abbrev fail : Callback ℕ
fail n = (raise failure, suc n)

abbrev recover_yes : OperationRecord → Callback ℕ
recover_yes r = succeed

abbrev no_options : Options ℕ
no_options = record { recover = none; classify_error = none }

abbrev with_recovery : Options ℕ
with_recovery = record no_options { recover = some recover_yes }

operation_runs_once_example :
    (execute_operation digest_json call times succeed no_options [] none [] 0
      ≡ (returned yes, committed_files digest_json call times [] yes, 1))
    × (execute_operation digest_json
          (renamed call "again")
          times
          fail
          no_options
          []
          none
          (committed_files digest_json call times [] yes)
          1
        ≡ (returned yes, committed_files digest_json call times [] yes, 1))
unfolding call_valid is_sha256_digest is_blank get
operation_runs_once_example =
    operation_runs_once digest_json call times succeed no_options [] 0 1 yes "again" times fail
      no_options 1 refl refl refl refl refl

failure_is_recorded_example :
    (execute_operation digest_json call times fail no_options [] none [] 0
      ≡ (thrown failure, failed_files call times [] (default_operation_error failure), 1))
    × (execute_operation digest_json
          (renamed call "again")
          times
          succeed
          no_options
          []
          none
          (failed_files call times [] (default_operation_error failure))
          1
        ≡ (
          stored_error (stored (record { code = "PATH_POLICY"; message = "m"; retryable = false })),
          failed_files call times [] (default_operation_error failure),
          1,
        ))
unfolding call_valid is_sha256_digest is_blank get default_operation_error
failure_is_recorded_example =
    failure_is_recorded digest_json call times fail no_options [] 0 1 failure "again" times succeed
      no_options 1 refl refl refl refl refl

interrupted_is_not_repeated_example :
    execute_operation digest_json call times succeed no_options [] none
      (write [] call (initial_record call now))
      0
    ≡ (operation_recovery_required, interrupted_files call [] now now, 0)
unfolding call_valid is_sha256_digest is_blank
interrupted_is_not_repeated_example =
    interrupted_is_not_repeated digest_json call now times succeed no_options [] 0 refl refl

interrupted_is_recovered_example :
    (files' : Files) × (execute_operation digest_json call times fail with_recovery [] none
        (write [] call (initial_record call now))
        0
      ≡ (returned yes, files', 1))
    × (execute_operation digest_json (renamed call "again") times fail no_options [] none files' 1
        ≡ (returned yes, files', 1))
unfolding call_valid is_sha256_digest is_blank
interrupted_is_recovered_example =
    interrupted_is_recovered digest_json call now times times fail fail with_recovery no_options []
      0 1 1 recover_yes yes "again" refl refl refl refl refl

abbrev other_call : Call
other_call = record call { request_digest = digest_a }

abbrev ended_files : Files
ended_files = (execute_operation digest_json call times succeed no_options [] none [] 0).1

reused_key_is_refused_example :
    (execute_operation digest_json other_call times fail no_options [] none ended_files 5
      ≡ (store_error (geo_research_error "IDEMPOTENCY_CONFLICT"), ended_files, 5))
    × (execute_operation digest_json other_call times fail no_options [] none
          (write [] call (initial_record call now))
          5
        ≡ (
          store_error (geo_research_error "IDEMPOTENCY_CONFLICT"),
          write [] call (initial_record call now),
          5,
        ))
unfolding call_valid is_sha256_digest is_blank get
reused_key_is_refused_example =
    reused_key_is_refused digest_json call other_call times times succeed fail no_options no_options
      [] 0 5 refl refl refl (λ e. cc ((eq_iff digest_a digest_b).1 e)) refl
