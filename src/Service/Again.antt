-- ===== src/Service/Again.antt =====
-- The check of a record after the commit that it has admitted.
use georesearch_dsh.Prelude.{
  String, ◌≡◌, refl, Bool, true, false, Option, none, some, arith, eq_iff, eq_refl, ok,
}
use georesearch_dsh.Dict.{Dict, get, put, or_empty, get-put}
use georesearch_dsh.Contracts.Reproduction.{
  RepositoryAudit, ReproductionPlan, ReproductionTestSpecRecord,
}
use georesearch_dsh.Contracts.State.{ProjectReducerState}
use georesearch_dsh.Reducer.Apply.{apply_event, amended}
use georesearch_dsh.Reducer.Maps.{put_all}
use georesearch_dsh.Contracts.Experiment.{ExperimentAmendment}
use georesearch_dsh.Reducer.History.{Ensures}
use georesearch_dsh.Service.Host.{
  Host, same_repository_audit_snapshot, same_reproduction_plan_snapshot,
  same_reproduction_test_spec_snapshot,
}
use georesearch_dsh.Service.Guards.{
  Decision, is_current_artifact, assert_current_artifact, assert_current_binding,
}
use georesearch_dsh.Service.Sources.{source_guard, evidence_guard, audit_guard}
use georesearch_dsh.Service.Plans.{plan_guard, test_spec_guard}
use georesearch_dsh.Service.Specs.{SpecBundle, spec_guard, check_inputs, check_lineage}
use georesearch_dsh.Service.Writing.{manuscript_guard}
use georesearch_dsh.Service.Commit.{Proposal, event_of, guard}

-- The records whose checks read nothing that their own commit changes, but for the record itself.
abbrev pub is_repeatable : Proposal → Bool
is_repeatable (Proposal.source r) = true
is_repeatable (Proposal.evidence r) = true
is_repeatable (Proposal.audit r) = true
is_repeatable (Proposal.plan r) = true
is_repeatable (Proposal.test_spec r) = true
is_repeatable (Proposal.spec b) = true
is_repeatable (Proposal.manuscript b) = true
is_repeatable _ = false

found_again {ℓ} : {V : Type ℓ} (m : Dict V) (k : String) (v : V) → get (put m k v) k ≡ some v
found_again m k v = rw (get-put, eq_refl k) refl

same_audit_refl : (h : Host) (r : RepositoryAudit) → same_repository_audit_snapshot h r r ≡ true
unfolding same_repository_audit_snapshot
same_audit_refl h r = eq_refl _

same_plan_refl : (h : Host) (r : ReproductionPlan) → same_reproduction_plan_snapshot h r r ≡ true
unfolding same_reproduction_plan_snapshot
same_plan_refl h r = eq_refl _

same_test_spec_refl :
    (h : Host) (r : ReproductionTestSpecRecord) → same_reproduction_test_spec_snapshot h r r ≡ true
unfolding same_reproduction_test_spec_snapshot
same_test_spec_refl h r = eq_refl _

-- The state with a spec and what comes along.
abbrev with_spec : ProjectReducerState → SpecBundle → ProjectReducerState
with_spec s b = record s {
  geodata_reports =
      some (put_all (λ r. r.report_id) (or_empty s.geodata_reports) b.geodata_reports);
  dataset_manifests =
      some (put_all (λ m. m.dataset_id) (or_empty s.dataset_manifests) b.dataset_manifests);
  experiment_specs =
      some (put (or_empty s.experiment_specs) b.experiment_spec.spec_id b.experiment_spec);
  experiment_amendments = amended s.experiment_amendments b.amendment;
}

inputs_again :
    (project_id : String) (b : SpecBundle) (s : ProjectReducerState)
    → check_inputs project_id b (with_spec s b) ≡ check_inputs project_id b s
unfolding check_inputs assert_current_artifact is_current_artifact
inputs_again project_id b s = refl

-- The parent of an amended spec is another spec.
lineage_again :
    (project_id : String) (b : SpecBundle) (s : ProjectReducerState)
    (a : Option ExperimentAmendment)
    → get (or_empty s.experiment_specs) b.experiment_spec.spec_id ≡ none
    → check_lineage project_id b.experiment_spec s a ≡ ok tt
    → check_lineage project_id b.experiment_spec (with_spec s b) a ≡ ok tt
lineage_again project_id b s none new k = k
lineage_again project_id b s (some a) new k = ground (
  arith,
  k,
  new,
  eq_iff b.experiment_spec.spec_id a.from_spec_id,
  get-put (or_empty s.experiment_specs) b.experiment_spec.spec_id a.from_spec_id b.experiment_spec,
)

spec_again :
    (project_id : String) (b : SpecBundle) (s : ProjectReducerState)
    → spec_guard project_id b s ≡ ok Decision.write
    → spec_guard project_id b (with_spec s b) ≡ ok Decision.keep
unfolding spec_guard
spec_again project_id b s k = ground (
  arith,
  k,
  inputs_again project_id b s,
  lineage_again project_id b s b.amendment,
  found_again (or_empty s.experiment_specs) b.experiment_spec.spec_id b.experiment_spec,
  eq_refl b.experiment_spec.digest,
)

pub kept_after :
    (h : Host) (project_id : String) (s : ProjectReducerState) (time : String) (proposal : Proposal)
    → is_repeatable proposal ≡ true
    → guard h project_id proposal s ≡ ok Decision.write
    → Ensures
        (λ t. guard h project_id proposal t ≡ ok Decision.keep)
        (apply_event s time (event_of proposal))
unfolding apply_event guard event_of source_guard evidence_guard audit_guard plan_guard
    test_spec_guard manuscript_guard assert_current_binding
kept_after h project_id s time (Proposal.source r) q k =
    ground (arith, found_again (or_empty s.sources) r.source_id r, eq_refl r.digest)
kept_after h project_id s time (Proposal.evidence r) q k =
    ground (arith, k, found_again (or_empty s.evidence) r.evidence_id r, eq_refl r.digest)
kept_after h project_id s time (Proposal.audit r) q k =
    ground (arith, k, found_again (or_empty s.repository_audits) r.audit_id r, same_audit_refl h r)
kept_after h project_id s time (Proposal.plan r) q k =
    ground (arith, k, found_again (or_empty s.reproduction_plans) r.plan_id r, same_plan_refl h r)
kept_after h project_id s time (Proposal.test_spec r) q k = ground (
  arith,
  k,
  found_again (or_empty s.reproduction_test_specs) r.spec.test_spec_id r,
  same_test_spec_refl h r,
)
kept_after h project_id s time (Proposal.spec b) q k = spec_again project_id b s k
kept_after h project_id s time (Proposal.manuscript b) q k = ground (
  arith,
  k,
  found_again (or_empty s.manuscripts) b.manuscript.manuscript_id b.manuscript,
  found_again (or_empty s.manuscript_audits) b.audit.audit_id b.audit,
  eq_refl b.manuscript.digest,
  eq_refl b.audit.digest,
)
kept_after h project_id s time (Proposal.report r) q k = cc
kept_after h project_id s time (Proposal.results b) q k = cc
kept_after h project_id s time (Proposal.validation b) q k = cc
kept_after h project_id s time (Proposal.review r) q k = cc
kept_after h project_id s time (Proposal.claim r) q k = cc
kept_after h project_id s time (Proposal.packet r) q k = cc
