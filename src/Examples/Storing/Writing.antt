-- ===== src/Examples/Storing/Writing.antt =====
-- A claim and a writing packet on a project that has what they rest on.
use georesearch_dsh.Prelude.{
  refl, none, some, List, [], ◌∷◌, any, all, map, filter_if, includes, sort_strings, unique,
}
use georesearch_dsh.Dict.{get, put, values}
use georesearch_dsh.Contracts.Claim.{ClaimRecord}
use georesearch_dsh.Contracts.State.{ProjectReducerState}
use georesearch_dsh.Contracts.Event.{
  ProjectEvent, research_brief_committed, artifact_committed, source_recorded, evidence_recorded,
  run_recorded, experiment_spec_committed, result_records_committed, validation_completed,
  claim_recorded,
}
use georesearch_dsh.Reducer.{reduce_project_event}
use georesearch_dsh.Reducer.Apply.{apply_event}
use georesearch_dsh.Reducer.Maps.{put_all, mark_all}
use georesearch_dsh.Store.Disk.{is_sha256_digest, Disk, entry, state_file}
use georesearch_dsh.Store.Log.{
  parse_lines, parse_event, create_event, read_event_log, replay_events,
}
use georesearch_dsh.Store.Snapshot.{rebuild, read_consistent_locked}
use georesearch_dsh.Store.Commit.{load, commit}
use georesearch_dsh.Store.Synced.{IsSynced}
use georesearch_dsh.Service.Commit.{
  Proposal, Envelope, commit_proposal, precheck, guard, proposal_request, event_of,
}
use georesearch_dsh.Service.Guards.{
  assert_current_binding, current_subject_digest, validation_subject_key, sort_by,
}
use georesearch_dsh.Service.Reviews.{passed_keys}
use georesearch_dsh.Service.Results.{concat_refs}
use georesearch_dsh.Service.Closure.{collect_writing_inputs, gather, required_all, distinct}
use georesearch_dsh.Service.Writing.{packet_guard, packet_precheck, select_claims, sorted_claims}
use georesearch_dsh.Service.Claims.{
  claim_guard, claim_precheck, claim_eligible_for_writing, support_suffices,
}
use georesearch_dsh.Service.Claims.References.{
  proposal_of, claim_support_ref_current, claim_sections_valid, claim_review_subject_keys,
}
use georesearch_dsh.Service.Claims.Assessment.{assess_claim_support}
use georesearch_dsh.Service.Support.{IsWellFounded, approved_claim_is_founded}
use georesearch_dsh.Service.Packed.{PacksEvidence, packet_has_evidence}
use georesearch_dsh.Examples.Data.{digest_a, digest_b, now, encoding, created, artifact}
use georesearch_dsh.Examples.Records.{host, brief, source, evidence, run}
use georesearch_dsh.Examples.Findings.{
  spec, result, validation_plan, validation_report, claim, packet,
}
use georesearch_dsh.Examples.Storing.{creation, snapshot}
use georesearch_dsh.Examples.Storing.Guarding.{event_at, file_or}

abbrev last_event : ProjectEvent
last_event = event_at 10 (claim_recorded claim)

abbrev events : List ProjectEvent
events =
    creation
    ∷ event_at 2 (research_brief_committed brief)
    ∷ event_at 3 (artifact_committed (artifact "a1" digest_a []))
    ∷ event_at 4 (source_recorded source)
    ∷ event_at 5 (evidence_recorded evidence)
    ∷ event_at 6 (run_recorded run)
    ∷ event_at 7 (experiment_spec_committed [] [] spec none)
    ∷ event_at 8 (result_records_committed run (result ∷ []))
    ∷ event_at 9 (validation_completed validation_plan validation_report)
    ∷ last_event
    ∷ []

abbrev state : ProjectReducerState
state = record created {
  research_brief = some brief;
  artifacts = ("a1", artifact "a1" digest_a []) ∷ [];
  sources = some (("s1", source) ∷ []);
  evidence = some (("e1", evidence) ∷ []);
  runs = ("r1", run) ∷ [];
  experiment_specs = some (("x1", spec) ∷ []);
  results = some (("t1", result) ∷ []);
  validation_plans = some (("n1", validation_plan) ∷ []);
  validation_reports = some (("v1", validation_report) ∷ []);
  claims = some (("c1", claim) ∷ []);
}

abbrev disk : Disk
disk = record {
  log = record { lines = map entry events; tail = none };
  state = some (state_file 1 (rebuild encoding "p1" events last_event state));
}

disk-IsSynced : IsSynced encoding "p1" disk events last_event state
unfolding parse_lines parse_event creation create_event replay_events is_sha256_digest
    reduce_project_event apply_event put put_all mark_all get
disk-IsSynced = record {
  logged = record { whole = refl; parsed = refl; final = refl; replayed = refl };
  snapshot = refl;
}

abbrev envelope : Envelope
envelope = record { expected_generation = 10; operation_key = digest_a; request_digest = digest_b }

abbrev next_claim : ClaimRecord
next_claim = record claim { claim_id = "c2" }

approved_claim_is_founded_example : IsWellFounded host state next_claim
unfolding commit_proposal precheck guard claim_guard claim_precheck load read_consistent_locked
    read_event_log parse_lines parse_event creation create_event is_sha256_digest replay_events
    reduce_project_event apply_event put put_all mark_all get snapshot commit proposal_request
    event_of assert_current_binding assess_claim_support proposal_of all claim_support_ref_current
    current_subject_digest filter_if values claim_sections_valid includes passed_keys
    validation_subject_key claim_review_subject_keys any support_suffices
approved_claim_is_founded_example =
    approved_claim_is_founded host encoding "p1" disk events last_event state disk-IsSynced envelope
      next_claim now
      (file_or snapshot
        (commit_proposal host encoding "p1" envelope (Proposal.claim next_claim) now disk).0)
      refl refl

packet_has_evidence_example : PacksEvidence state packet "c1" "e1"
unfolding commit_proposal precheck guard load read_consistent_locked read_event_log parse_lines
    parse_event creation create_event is_sha256_digest replay_events reduce_project_event
    apply_event put put_all mark_all get snapshot commit proposal_request event_of
    claim_eligible_for_writing assert_current_binding assess_claim_support proposal_of all
    claim_support_ref_current current_subject_digest filter_if values claim_sections_valid includes
    passed_keys validation_subject_key claim_review_subject_keys any support_suffices packet_guard
    packet_precheck select_claims sorted_claims sort_by collect_writing_inputs gather required_all
    distinct concat_refs sort_strings unique
packet_has_evidence_example =
    packet_has_evidence host encoding "p1" disk events last_event state disk-IsSynced envelope
      packet now
      (file_or snapshot
        (commit_proposal host encoding "p1" envelope (Proposal.packet packet) now disk).0)
      "c1" claim "e1" refl refl refl refl
