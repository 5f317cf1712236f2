-- ===== src/Examples/Storing/Guarding.antt =====
-- Guarded commits on a project that has what their records refer to.
use georesearch_dsh.Prelude.{
  ℕ, ◌≡◌, refl, true, none, some, List, [], ◌∷◌, any, Result, ok, err, geo_research_error,
}
use georesearch_dsh.Dict.{get, put}
use georesearch_dsh.Contracts.State.{ProjectReducerState, ProjectStateFile}
use georesearch_dsh.Contracts.Event.{
  ProjectEvent, ProjectEventData, artifact_committed, source_recorded, repository_audit_recorded,
  reproduction_plan_recorded, run_recorded,
}
use georesearch_dsh.Reducer.{reduce_project_event}
use georesearch_dsh.Reducer.Apply.{apply_event}
use georesearch_dsh.Store.Disk.{is_sha256_digest, Disk, entry, state_file}
use georesearch_dsh.Store.Log.{
  parse_lines, parse_event, create_event, read_event_log, replay_events,
}
use georesearch_dsh.Store.Snapshot.{rebuild, read_consistent_locked}
use georesearch_dsh.Store.Commit.{load, commit}
use georesearch_dsh.Store.Synced.{IsSynced}
use georesearch_dsh.Contracts.Evidence.{EvidenceRecord}
use georesearch_dsh.Service.Sources.{evidence_guard}
use georesearch_dsh.Service.Guards.{is_current_artifact}
use georesearch_dsh.Service.Outcomes.{outcome_violation, allowed_success}
use georesearch_dsh.Service.Reports.{report_guard, report_precheck, report_on, reported_runs}
use georesearch_dsh.Service.Commit.{
  Proposal, Envelope, commit_proposal, precheck, guard, proposal_request, event_of,
}
use georesearch_dsh.Service.Committing.{refused_commit_writes_nothing}
use georesearch_dsh.Service.Permanence.{Freezes, records_are_permanent}
use georesearch_dsh.Service.Links.{IsLinked}
use georesearch_dsh.Service.Links.Updates.{Refers-put, Refers-empty}
use georesearch_dsh.Service.Links.Kept.{commits_keep_links}
use georesearch_dsh.Service.Filed.{on_file, committed_is_on_file}
use georesearch_dsh.Service.Retry.{resent_record_is_kept}
use georesearch_dsh.Service.Exactly.{IsExact, IsExact-report-IsExact}
use georesearch_dsh.Examples.Data.{digest_a, digest_b, now, encoding, created, artifact}
use georesearch_dsh.Examples.Records.{host, source, audit, plan, run, evidence, report}
use georesearch_dsh.Examples.Storing.{creation, snapshot}

abbrev pub event_at : ℕ → ProjectEventData → ProjectEvent
event_at n content = record {
  body = record {
    event_schema_version = 1;
    reducer_version = 1;
    seq = n;
    time = now;
    operation_key = digest_a;
    request_digest = digest_b;
    content = content;
    previous_hash = some digest_a;
  };
  hash = digest_a;
}

abbrev last_event : ProjectEvent
last_event = event_at 6 (run_recorded run)

abbrev events : List ProjectEvent
events =
    creation
    ∷ event_at 2 (artifact_committed (artifact "a1" digest_a []))
    ∷ event_at 3 (source_recorded source)
    ∷ event_at 4 (repository_audit_recorded audit)
    ∷ event_at 5 (reproduction_plan_recorded plan)
    ∷ last_event
    ∷ []

abbrev state : ProjectReducerState
state = record created {
  artifacts = ("a1", artifact "a1" digest_a []) ∷ [];
  sources = some (("s1", source) ∷ []);
  repository_audits = some (("u1", audit) ∷ []);
  reproduction_plans = some (("l1", plan) ∷ []);
  runs = ("r1", run) ∷ [];
  evidence = some [];
  reproduction_test_specs = some [];
  reproduction_reports = some [];
  experiment_specs = some [];
  results = some [];
  manuscripts = some [];
}

abbrev disk : Disk
disk = record {
  log = record {
    lines =
        entry creation
        ∷ entry (event_at 2 (artifact_committed (artifact "a1" digest_a [])))
        ∷ entry (event_at 3 (source_recorded source))
        ∷ entry (event_at 4 (repository_audit_recorded audit))
        ∷ entry (event_at 5 (reproduction_plan_recorded plan))
        ∷ entry last_event
        ∷ [];
    tail = none;
  };
  state = some (state_file 1 (rebuild encoding "p1" events last_event state));
}

disk-IsSynced : IsSynced encoding "p1" disk events last_event state
unfolding parse_lines parse_event creation create_event replay_events is_sha256_digest
    reduce_project_event apply_event put
disk-IsSynced = record {
  logged = record { whole = refl; parsed = refl; final = refl; replayed = refl };
  snapshot = refl;
}

abbrev envelope : Envelope
envelope = record { expected_generation = 6; operation_key = digest_a; request_digest = digest_b }

abbrev pub file_or : ProjectStateFile → Result ProjectStateFile → ProjectStateFile
file_or other (ok f) = f
file_or other (err e) = other

abbrev with_evidence : Result ProjectStateFile × Disk
with_evidence = commit_proposal host encoding "p1" envelope (Proposal.evidence evidence) now disk

abbrev filed : ProjectStateFile
filed = file_or snapshot with_evidence.0

abbrev stray : EvidenceRecord
stray = record evidence { source_id = "s2" }

refused_commit_writes_nothing_example :
    (commit_proposal host encoding "p1" envelope (Proposal.evidence stray) now disk).1 ≡ disk
unfolding commit_proposal precheck guard evidence_guard load read_consistent_locked read_event_log
    parse_lines parse_event creation create_event is_sha256_digest replay_events
    reduce_project_event apply_event put get snapshot
refused_commit_writes_nothing_example =
    refused_commit_writes_nothing host encoding "p1" disk events last_event state disk-IsSynced
      envelope (Proposal.evidence stray) now (geo_research_error "EVIDENCE_SOURCE_NOT_FOUND") refl

records_are_permanent_example : Freezes state filed.state
unfolding commit_proposal precheck guard evidence_guard load read_consistent_locked read_event_log
    parse_lines parse_event creation create_event is_sha256_digest replay_events
    reduce_project_event apply_event put get snapshot commit proposal_request event_of
records_are_permanent_example =
    records_are_permanent host encoding "p1" disk events last_event state disk-IsSynced envelope
      (Proposal.evidence evidence) now filed refl

state-IsLinked : IsLinked state
unfolding put get
state-IsLinked = record {
  evidence_source = Refers-empty _ _ _ _;
  audit_source = Refers-put _ _ _ _ [] "u1" audit (source, refl, refl) (Refers-empty _ _ _ _);
  plan_audit = Refers-put _ _ _ _ [] "l1" plan (audit, refl, refl) (Refers-empty _ _ _ _);
  test_spec_plan = Refers-empty _ _ _ _;
  test_spec_audit = Refers-empty _ _ _ _;
  report_plan = Refers-empty _ _ _ _;
  report_baseline = Refers-empty _ _ _ _;
  report_final = Refers-empty _ _ _ _;
  spec_audit = Refers-empty _ _ _ _;
  result_spec = Refers-empty _ _ _ _;
  result_run = Refers-empty _ _ _ _;
  manuscript_packet = Refers-empty _ _ _ _;
}

commits_keep_links_example : IsLinked filed.state
unfolding commit_proposal precheck guard evidence_guard load read_consistent_locked read_event_log
    parse_lines parse_event creation create_event is_sha256_digest replay_events
    reduce_project_event apply_event put get snapshot commit proposal_request event_of
commits_keep_links_example =
    commits_keep_links host encoding "p1" disk events last_event state disk-IsSynced envelope
      (Proposal.evidence evidence) now filed state-IsLinked refl

committed_is_on_file_example : on_file host (Proposal.evidence evidence) filed.state ≡ true
unfolding commit_proposal precheck guard evidence_guard load read_consistent_locked read_event_log
    parse_lines parse_event creation create_event is_sha256_digest replay_events
    reduce_project_event apply_event put get snapshot commit proposal_request event_of
committed_is_on_file_example =
    committed_is_on_file host encoding "p1" disk events last_event state disk-IsSynced envelope
      (Proposal.evidence evidence) now filed refl

resent_record_is_kept_example :
    commit_proposal host encoding "p1" envelope (Proposal.evidence evidence) "" with_evidence.1
    ≡ (ok filed, with_evidence.1)
unfolding commit_proposal precheck guard evidence_guard load read_consistent_locked read_event_log
    parse_lines parse_event creation create_event is_sha256_digest replay_events
    reduce_project_event apply_event put get snapshot commit proposal_request event_of
resent_record_is_kept_example =
    resent_record_is_kept host encoding "p1" disk events last_event state disk-IsSynced envelope
      envelope (Proposal.evidence evidence) now "" filed refl refl refl

IsExact-report-IsExact_example : IsExact state report
unfolding commit_proposal precheck guard report_guard report_precheck load read_consistent_locked
    read_event_log parse_lines parse_event creation create_event is_sha256_digest replay_events
    reduce_project_event apply_event put get snapshot commit proposal_request event_of report_on
    is_current_artifact any reported_runs outcome_violation allowed_success
IsExact-report-IsExact_example =
    IsExact-report-IsExact host encoding "p1" disk events last_event state disk-IsSynced envelope
      report now
      (file_or snapshot
        (commit_proposal host encoding "p1" envelope (Proposal.report report) now disk).0)
      refl refl
