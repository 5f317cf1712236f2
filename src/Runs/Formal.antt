-- ===== src/Runs/Formal.antt =====
-- packages/project-service/src/index.ts: `assertFormalRunBinding`, what a formal run must be bound to.
-- A spec on record is frozen: `status` has no other value in its type.
use georesearch_dsh.Prelude.{
  ℕ, Bool, true, false, ◌&&◌, Option, none, some, List, ◌==◌, nat_eq, map, length, any, all, find,
  includes, if◌then◌else◌, Result, ok, err, Failure, geo_research_error,
}
use georesearch_dsh.Dict.{get, values, or_empty}
use georesearch_dsh.Contracts.Json.{Sha256Digest}
use georesearch_dsh.Contracts.Run.{RunRecord}
use georesearch_dsh.Contracts.Dataset.{DatasetManifest, DatasetStatus}
use georesearch_dsh.Contracts.Experiment.{ExperimentSpec, ExperimentDatasetRef}
use georesearch_dsh.Contracts.Reproduction.{ReproductionPlan, RepositoryAudit}
use georesearch_dsh.Contracts.State.{ProjectReducerState}

-- `sameDigestSet`
unfoldable pub same_digest_set : List Sha256Digest → List Sha256Digest → Bool
same_digest_set left right = nat_eq (length left) (length right) && all (λ d. includes d right) left

abbrev has_seed : Option ℕ → List ℕ → Bool
has_seed none seeds = false
has_seed (some seed) seeds = any (λ s. nat_eq s seed) seeds

abbrev is_verified : DatasetStatus → Bool
is_verified DatasetStatus.verified = true
is_verified DatasetStatus.blocked = false

abbrev manifest_fits : ExperimentDatasetRef → Option DatasetManifest → Bool
manifest_fits reference none = false
manifest_fits reference (some manifest) =
    manifest.digest == reference.dataset_digest && is_verified manifest.status

abbrev plan_fits : ProjectReducerState → RunRecord → ReproductionPlan → Bool
plan_fits s run plan =
    plan.workspace_id == run.workspace_id
    && nat_eq plan.workspace_binding_version run.workspace_binding_version
    && any
        (λ (audit : RepositoryAudit).
          audit.source_id == plan.source_id
          && audit.workspace_id == plan.workspace_id
          && nat_eq audit.workspace_binding_version plan.workspace_binding_version
          && audit.source_tree_digest == run.source_tree_digest)
        (values (or_empty s.repository_audits))

abbrev spec_fits : ProjectReducerState → RunRecord → ExperimentSpec → Bool
spec_fits s run spec =
    has_seed run.seed spec.seeds
    && spec.workspace_id == run.workspace_id
    && nat_eq spec.workspace_binding_version run.workspace_binding_version
    && spec.source_tree_digest == run.source_tree_digest
    && same_digest_set run.dataset_digests (map (λ d. d.dataset_digest) spec.datasets)
    && all (λ d. manifest_fits d (get (or_empty s.dataset_manifests) d.dataset_id)) spec.datasets

abbrev run_plan_invalid : Failure
run_plan_invalid = geo_research_error "RUN_PLAN_INVALID"

abbrev bound_to :
    ProjectReducerState
    → RunRecord
    → Option ReproductionPlan
    → Option ExperimentSpec
    → Result (Unit {0})
bound_to s run (some plan) spec = if plan_fits s run plan then ok tt else err run_plan_invalid
bound_to s run none (some spec) = if spec_fits s run spec then ok tt else err run_plan_invalid
bound_to s run none none = err run_plan_invalid

unfoldable pub assert_formal_run_binding : ProjectReducerState → RunRecord → Result (Unit {0})
assert_formal_run_binding s run =
    bound_to s run
      (find (λ (plan : ReproductionPlan). plan.digest == run.experiment_spec_digest)
        (values (or_empty s.reproduction_plans)))
      (find (λ (spec : ExperimentSpec). spec.digest == run.experiment_spec_digest)
        (values (or_empty s.experiment_specs)))
