-- ===== src/Store/Operation/Resumed.antt =====
-- Calls of an operation that died, and calls with another request (store.ts).
use georesearch_dsh.Prelude.{
  String, ◌≡◌, ◌≢◌, refl, sym, ap, subst, ◌∙◌, true, none, some, [], eq_iff, arith,
  geo_research_error,
}
use georesearch_dsh.Dict.{get}
use georesearch_dsh.Contracts.Json.{Json, Sha256Digest}
use georesearch_dsh.Contracts.Operation.{OperationRecord}
use georesearch_dsh.Store.Disk.{is_sha256_digest}
use georesearch_dsh.Store.Operation.{
  Answer, raise, settle_action, failed_record, classify, returned, store_error, value, Times, Call,
  initial_record, Callback, Options, Files, write, operation_recovery_required, marked_record,
  call_valid, committed_record, resume_state, resume, recover_operation, execute_found,
  execute_operation,
}
use georesearch_dsh.Store.Operation.Once.{
  renamed, get-write, read-write, execute_step, execute_again, returns_recorded,
}

-- The record that a call leaves that died while its action ran, once another call has found it.
abbrev pub interrupted_record : Call → String → String → OperationRecord
interrupted_record c started marked = marked_record (initial_record c started) marked

-- The files that the two calls leave.
abbrev pub interrupted_files : Call → Files → String → String → Files
interrupted_files c files started marked =
    write (write files c (initial_record c started)) c (interrupted_record c started marked)

module _ {W : Type 0} (digest_json : Json → Sha256Digest) where
  -- If a call died while its action ran, a later valid call without a recovery does not run its action: it
  -- marks the operation as one to recover, says so, and changes nothing else.
  pub interrupted_is_not_repeated :
      (c : Call) (started : String) (t : Times) (action : Callback W) (o : Options W)
      (files : Files) (w : W)
      → call_valid c ≡ true
      → o.recover ≡ none
      → execute_operation digest_json c t action o [] none
          (write files c (initial_record c started))
          w
        ≡ (operation_recovery_required, interrupted_files c files started t.marked, w)
  unfolding initial_record resume_state recover_operation
  interrupted_is_not_repeated c started t action o files w valid h =
      execute_again digest_json c t action o files w (initial_record c started) valid refl refl
      ∙ rw h

  -- If a call died while its action ran, and a later valid call has a recovery that returns a value, then
  -- that call returns the value without running its action, and so does every call after it with the
  -- same key and request digest, without its action and without a recovery.
  pub interrupted_is_recovered :
      (c : Call) (started : String) (t t' : Times) (action action' : Callback W) (o o' : Options W)
      (files : Files) (w w' u : W) (recovery : OperationRecord → Callback W) (v : Json)
      (name : String)
      → is_sha256_digest (digest_json v) ≡ true
      → call_valid c ≡ true
      → call_valid (renamed c name) ≡ true
      → o.recover ≡ some recovery
      → recovery (interrupted_record c started t.marked) w ≡ (value v, w')
      → (files' : Files) × (execute_operation digest_json c t action o [] none
            (write files c (initial_record c started))
            w
          ≡ (returned v, files', w'))
        × (execute_operation digest_json (renamed c name) t' action' o' [] none files' u
            ≡ (returned v, files', u))
  unfolding initial_record resume_state recover_operation
  interrupted_is_recovered c started t t' action action' o o' files w w' u recovery v name format
        valid valid' h runs =
      (
        write (interrupted_files c files started t.marked) c
            (committed_record digest_json (interrupted_record c started t.marked) t.ended v),
        execute_again digest_json c t action o files w (initial_record c started) valid refl refl
            ∙ rw (h, runs),
        returns_recorded digest_json (renamed c name) t' action' o'
            (interrupted_files c files started t.marked) u (interrupted_record c started t.marked)
            t.ended v format valid' refl refl,
      )

  -- A call whose key has a record of a call with another request digest.
  refused :
      (c c₂ : Call) (t : Times) (action : Callback W) (o : Options W) (files : Files) (w : W)
      (r : OperationRecord)
      → call_valid c ≡ true
      → call_valid c₂ ≡ true
      → c₂.operation_key ≡ c.operation_key
      → c₂.request_digest ≢ c.request_digest
      → r.operation_key ≡ c.operation_key
      → r.request_digest ≡ c.request_digest
      → execute_operation digest_json c₂ t action o [] none (write files c r) w
        ≡ (store_error (geo_research_error "IDEMPOTENCY_CONFLICT"), write files c r, w)
  unfolding execute_found resume
  refused c c₂ t action o files w r valid valid₂ key other r_key r_request =
      execute_step digest_json c₂ t action o (write files c r) w valid₂
      ∙ rw (key, get-write files c r, read-write c r valid r_key r_request)
          (ground (arith, eq_iff r.request_digest c₂.request_digest, other, r_request))

  first_call :
      (c : Call) (t : Times) (action : Callback W) (o : Options W) (files : Files) (w : W)
      → call_valid c ≡ true
      → get files c.operation_key ≡ none
      → execute_operation digest_json c t action o [] none files w
        ≡ settle_action digest_json c t o (write files c (initial_record c t.started)) (action w)
  unfolding execute_found
  first_call c t action o files w valid fresh =
      execute_step digest_json c t action o files w valid ∙ rw fresh refl

  -- After a valid call of an operation that has no file yet, whether its action returned or threw,
  -- and after a call that died while its action ran, a valid call with the same key and another
  -- request digest is refused: its action does not run, and nothing changes.
  pub reused_key_is_refused :
      (c c₂ : Call) (t t₂ : Times) (action action₂ : Callback W) (o o₂ : Options W) (files : Files)
      (w u : W)
      → call_valid c ≡ true
      → call_valid c₂ ≡ true
      → c₂.operation_key ≡ c.operation_key
      → c₂.request_digest ≢ c.request_digest
      → get files c.operation_key ≡ none
      → let after = (execute_operation digest_json c t action o [] none files w).1 in
        let died = write files c (initial_record c t.started) in
        (execute_operation digest_json c₂ t₂ action₂ o₂ [] none after u
          ≡ (store_error (geo_research_error "IDEMPOTENCY_CONFLICT"), after, u))
        × (execute_operation digest_json c₂ t₂ action₂ o₂ [] none died u
            ≡ (store_error (geo_research_error "IDEMPOTENCY_CONFLICT"), died, u))
  unfolding execute_found settle_action initial_record
  reused_key_is_refused c c₂ t t₂ action action₂ o o₂ files w u valid valid₂ key other fresh = (
    subst
        (λ x.
          execute_operation digest_json c₂ t₂ action₂ o₂ [] none x u
          ≡ (store_error (geo_research_error "IDEMPOTENCY_CONFLICT"), x, u))
        (sym (ap (λ x. x.1) (first_call c t action o files w valid fresh))) (ended (action w)),
    refused c c₂ t₂ action₂ o₂ files u (initial_record c t.started) valid valid₂ key other refl
        refl,
  )
    where
      ended :
          (x : Answer × W)
          → let after =
              (settle_action digest_json c t o (write files c (initial_record c t.started)) x).1 in
            execute_operation digest_json c₂ t₂ action₂ o₂ [] none after u
            ≡ (store_error (geo_research_error "IDEMPOTENCY_CONFLICT"), after, u)
      ended (value v, w') =
          refused c c₂ t₂ action₂ o₂ (write files c (initial_record c t.started)) u
            (committed_record digest_json (initial_record c t.started) t.ended v) valid valid₂ key
            other refl refl
      ended (raise e, w') =
          refused c c₂ t₂ action₂ o₂ (write files c (initial_record c t.started)) u
            (failed_record (initial_record c t.started) t.ended (classify o.classify_error e)) valid
            valid₂ key other refl refl
