-- ===== src/Store/Operation/Once.antt =====
-- An operation is executed at most once, and its result is given again (store.ts).
use georesearch_dsh.Prelude.{
  String, ◌≡◌, refl, ◌∙◌, true, none, some, [], eq_refl, arith, Bool-cases, inl, inr, includes,
  if◌then◌else◌, ok,
}
use georesearch_dsh.Dict.{get, get-put}
use georesearch_dsh.Contracts.Json.{Json, Sha256Digest}
use georesearch_dsh.Contracts.Operation.{OperationRecord}
use georesearch_dsh.Store.Disk.{is_sha256_digest}
use georesearch_dsh.Store.Operation.{
  Thrown, Outcome, returned, thrown, stored_error, stored, value, raise, operation_file,
  digest_or_none, read_operation, Classified, Times, Call, initial_record, Callback, Options,
  failed_record, Files, write, operation_recovery_required, call_valid, committed_record, classify,
  settle_action, resume_state, resume, recover_operation, execute_found, execute_operation_locked,
  execute_operation,
}

-- The same operation under another name: a call is known by its key and its digest.
abbrev pub renamed : Call → String → Call
renamed c name = record c { operation = name }

pub call_parts :
    (c : Call)
    → call_valid c ≡ true
    → (is_sha256_digest c.operation_key ≡ true) × (is_sha256_digest c.request_digest ≡ true)
unfolding call_valid
call_parts c h = ground (arith, h)

-- What the store writes it reads back, but for a digest of the result that is none.
pub read-write :
    (c : Call) (r : OperationRecord)
    → call_valid c ≡ true
    → r.operation_key ≡ c.operation_key
    → r.request_digest ≡ c.request_digest
    → read_operation (operation_file 1 r) c.operation_key
      ≡ ok (record r { exact_result_digest = digest_or_none r.exact_result_digest })
unfolding read_operation
read-write c r valid key request =
    rw (key, request) (ground (arith, call_parts c valid, eq_refl c.operation_key))

pub get-write :
    (files : Files) (c : Call) (r : OperationRecord)
    → get (write files c r) c.operation_key ≡ some (operation_file 1 r)
get-write files c r = rw (get-put, eq_refl c.operation_key)

-- The files after a call that created the file of its operation, by how its action ended.
abbrev pub committed_files : (Json → Sha256Digest) → Call → Times → Files → Json → Files
committed_files digest_json c t files v =
    write (write files c (initial_record c t.started)) c
      (committed_record digest_json (initial_record c t.started) t.ended v)

abbrev pub failed_files : Call → Times → Files → Classified → Files
failed_files c t files k =
    write (write files c (initial_record c t.started)) c
      (failed_record (initial_record c t.started) t.ended k)

-- What a later call makes of a recorded failure.
abbrev pub later_outcome : Classified → Outcome
later_outcome k = if k.final then stored_error (stored k.error) else operation_recovery_required

module _ {W : Type 0} (digest_json : Json → Sha256Digest) where
  -- A valid call looks for its file.
  pub execute_step :
      (c : Call) (t : Times) (action : Callback W) (o : Options W) (files : Files) (w : W)
      → call_valid c ≡ true
      → execute_operation digest_json c t action o [] none files w
        ≡ execute_found digest_json c t action o (get files c.operation_key) files w
  unfolding execute_operation execute_operation_locked includes
  execute_step c t action o files w valid = rw valid

  -- A call that finds a record of its own resumes it.
  pub execute_again :
      (c : Call) (t : Times) (action : Callback W) (o : Options W) (files : Files) (w : W)
      (r : OperationRecord)
      → call_valid c ≡ true
      → r.operation_key ≡ c.operation_key
      → r.request_digest ≡ c.request_digest
      → execute_operation digest_json c t action o [] none (write files c r) w
        ≡ resume_state digest_json c t o
            (record r { exact_result_digest = digest_or_none r.exact_result_digest })
            (write files c r)
            w
  unfolding execute_found resume
  execute_again c t action o files w r valid key request =
      execute_step c t action o (write files c r) w valid
      ∙ rw
          (get-write files c r, read-write c r valid key request, request, eq_refl c.request_digest)

  -- A call that finds the record of a result returns the result and does nothing else.
  pub returns_recorded :
      (c : Call) (t : Times) (action : Callback W) (o : Options W) (files : Files) (w : W)
      (r : OperationRecord) (time : String) (v : Json)
      → is_sha256_digest (digest_json v) ≡ true
      → call_valid c ≡ true
      → r.operation_key ≡ c.operation_key
      → r.request_digest ≡ c.request_digest
      → execute_operation digest_json c t action o [] none
          (write files c (committed_record digest_json r time v))
          w
        ≡ (returned v, write files c (committed_record digest_json r time v), w)
  unfolding committed_record resume_state
  returns_recorded c t action o files w r time v format valid key request =
      execute_again c t action o files w (committed_record digest_json r time v) valid key request
      ∙ rw (format, eq_refl (digest_json v))

  -- A valid call of an operation that has no file yet, whose action returns a value, returns it and
  -- records it, if the call acquires its mutex and the digest of the value has its format. After
  -- that, any such call with the same key and request digest returns the same value, whatever its action,
  -- its options, its operation's name and the world are by then: its action does not run, and nothing
  -- changes.
  pub operation_runs_once :
      (c : Call) (t : Times) (action : Callback W) (o : Options W) (files : Files) (w w' : W)
      (v : Json) (name : String) (t₂ : Times) (action₂ : Callback W) (o₂ : Options W) (u : W)
      → is_sha256_digest (digest_json v) ≡ true
      → call_valid c ≡ true
      → call_valid (renamed c name) ≡ true
      → get files c.operation_key ≡ none
      → action w ≡ (value v, w')
      → (execute_operation digest_json c t action o [] none files w
          ≡ (returned v, committed_files digest_json c t files v, w'))
        × (execute_operation digest_json
              (renamed c name)
              t₂
              action₂
              o₂
              []
              none
              (committed_files digest_json c t files v)
              u
            ≡ (returned v, committed_files digest_json c t files v, u))
  unfolding execute_found settle_action initial_record
  operation_runs_once c t action o files w w' v name t₂ action₂ o₂ u format valid valid₂ fresh
        runs =
      (
        execute_step c t action o files w valid ∙ rw (fresh, runs),
        returns_recorded (renamed c name) t₂ action₂ o₂ (write files c (initial_record c t.started))
            u (initial_record c t.started) t.ended v format valid₂ refl refl,
      )

  resume_failed :
      (c : Call) (t : Times) (o : Options W) (files : Files) (u : W) (r : OperationRecord)
      (time : String) (k : Classified)
      → o.recover ≡ none
      → resume_state digest_json c t o (failed_record r time k) files u
        ≡ (later_outcome k, files, u)
  unfolding failed_record resume_state recover_operation
  resume_failed c t o files u r time k h = elim (Bool-cases k.final) [
    | inl e ↦ rw e
    | inr e ↦ rw (e, h)
  ]

  -- A valid call of an operation that has no file yet, whose action throws, throws the same error and
  -- records it as it
  -- classifies it. After that, a call with the same key and request digest and without a recovery
  -- does not run its action and changes nothing: it throws the recorded error if the failure is
  -- final, and otherwise that a recovery is required.
  pub failure_is_recorded :
      (c : Call) (t : Times) (action : Callback W) (o : Options W) (files : Files) (w w' : W)
      (e : Thrown) (name : String) (t₂ : Times) (action₂ : Callback W) (o₂ : Options W) (u : W)
      → call_valid c ≡ true
      → call_valid (renamed c name) ≡ true
      → get files c.operation_key ≡ none
      → action w ≡ (raise e, w')
      → o₂.recover ≡ none
      → (execute_operation digest_json c t action o [] none files w
          ≡ (thrown e, failed_files c t files (classify o.classify_error e), w'))
        × (execute_operation digest_json
              (renamed c name)
              t₂
              action₂
              o₂
              []
              none
              (failed_files c t files (classify o.classify_error e))
              u
            ≡ (
              later_outcome (classify o.classify_error e),
              failed_files c t files (classify o.classify_error e),
              u,
            ))
  unfolding execute_found settle_action initial_record failed_record resume_state recover_operation
  failure_is_recorded c t action o files w w' e name t₂ action₂ o₂ u valid valid₂ fresh runs none₂ =
      (
        execute_step c t action o files w valid ∙ rw (fresh, runs),
        execute_again (renamed c name) t₂ action₂ o₂ (write files c (initial_record c t.started)) u
              (failed_record (initial_record c t.started) t.ended (classify o.classify_error e))
              valid₂ refl refl
            ∙ resume_failed (renamed c name) t₂ o₂ _ u (initial_record c t.started) t.ended
                (classify o.classify_error e) none₂,
      )
