-- ===== src/Service/Plans.antt =====
-- `commitReproductionPlan` and `commitReproductionTestSpec`: what they check.
use georesearch_dsh.Prelude.{
  ℕ, String, List, [], ◌∷◌, Bool, true, false, ◌&&◌, ◌||◌, not, Option, none, some, ◌==◌, nat_eq,
  any, if◌then◌else◌, Result, ok, err, Failure, geo_research_error, other_error,
}
use georesearch_dsh.Dict.{get, or_empty}
use georesearch_dsh.Contracts.Run.{TestRunnerKind}
use georesearch_dsh.Contracts.Reproduction.{
  RepositoryAudit, ReproductionPlan, ReproductionScope, ReproductionTargetResult,
  ReproductionTestSpecRecord,
}
use georesearch_dsh.Contracts.State.{ProjectReducerState}
use georesearch_dsh.Service.Host.{
  Host, Canonical, digest_json, same_reproduction_plan_snapshot,
  same_reproduction_test_spec_snapshot,
}
use georesearch_dsh.Service.Remote.{codes, normalize_repository_url}
use georesearch_dsh.Service.Guards.{Decision, holds, settle, same_nullable}

unfoldable pub plan_precheck : Host → String → ReproductionPlan → Result (Unit {0})
unfolding digest_json
plan_precheck h project_id plan =
    if not (digest_json h (Canonical.plan_body (record plan { digest = "" })) == plan.digest)
    then err other_error
    else if not (plan.project_id == project_id)
    then err other_error
    else ok tt

abbrev pub plan_invalid : Failure
plan_invalid = geo_research_error "REPRODUCTION_PLAN_INVALID"

abbrev same_codes : List ℕ → List ℕ → Bool
same_codes [] [] = true
same_codes (x ∷ xs) (y ∷ ys) = nat_eq x y && same_codes xs ys
same_codes _ _ = false

-- `sameNullableRepositoryUrl`
abbrev same_nullable_repository_url : Host → Option String → Option String → Bool
same_nullable_repository_url h (some left) (some right) =
    same_codes (normalize_repository_url h.to_lower_case (codes left))
      (normalize_repository_url h.to_lower_case (codes right))
same_nullable_repository_url h left right = same_nullable left right

abbrev pub audit_is_current : ReproductionPlan → RepositoryAudit → Bool
audit_is_current plan audit =
    audit.digest == plan.repository_audit_digest
    && audit.source_tree_digest == plan.source_tree_digest
    && audit.source_id == plan.source_id
    && audit.workspace_id == plan.workspace_id
    && nat_eq audit.workspace_binding_version plan.workspace_binding_version

abbrev pub is_exact : ReproductionScope → Bool
is_exact ReproductionScope.exact = true
is_exact _ = false

-- A target result that names evidence which is not on record, or is of another source.
abbrev target_is_stale : ProjectReducerState → ReproductionPlan → ReproductionTargetResult → Bool
target_is_stale s plan target = elim target.evidence_id [
  | none ↦ false
  | some k ↦ not (holds (λ e. e.source_id == plan.source_id) (get (or_empty s.evidence) k))
]

abbrev plan_on_audit :
    Host → ReproductionPlan → ProjectReducerState → Option RepositoryAudit → Result Decision
plan_on_audit h plan s none = err plan_invalid
plan_on_audit h plan s (some audit) =
    if not (audit_is_current plan audit)
    then err plan_invalid
    else if not (same_nullable (some plan.target_repository.commit) audit.repository.target_commit)
        || not (
            same_nullable_repository_url h plan.target_repository.remote_url
              audit.repository.remote_url)
    then err plan_invalid
    else if is_exact plan.scope
        && (audit.repository.dirty || not audit.repository.target_matches_head)
    then err plan_invalid
    else if any (target_is_stale s plan) plan.target_results
    then err plan_invalid
    else settle (get (or_empty s.reproduction_plans) plan.plan_id)
        (λ existing. same_reproduction_plan_snapshot h existing plan) plan_invalid

unfoldable pub plan_guard : Host → ReproductionPlan → ProjectReducerState → Result Decision
plan_guard h plan s =
    plan_on_audit h plan s (get (or_empty s.repository_audits) plan.repository_audit_id)

abbrev pub test_spec_invalid : Failure
test_spec_invalid = geo_research_error "TEST_SPEC_INVALID"

abbrev is_smoke : TestRunnerKind → Bool
is_smoke TestRunnerKind.smoke = true
is_smoke _ = false

unfoldable pub test_spec_precheck : Host → String → ReproductionTestSpecRecord → Result (Unit {0})
unfolding digest_json
test_spec_precheck h project_id r =
    if not (digest_json h (Canonical.test_spec_body (record r { digest = "" })) == r.digest)
    then err other_error
    else if not (r.project_id == project_id)
    then err other_error
    else if not (digest_json h (Canonical.test_spec r.spec) == r.spec_digest)
    then err test_spec_invalid
    else if is_smoke r.spec.runner
    then err test_spec_invalid
    else ok tt

abbrev pub test_spec_is_bound :
    ReproductionTestSpecRecord → ReproductionPlan → RepositoryAudit → Bool
test_spec_is_bound r plan audit =
    plan.source_id == audit.source_id
    && plan.workspace_id == audit.workspace_id
    && nat_eq plan.workspace_binding_version audit.workspace_binding_version
    && audit.source_tree_digest == r.source_tree_digest
    && r.workspace_id == audit.workspace_id
    && nat_eq r.workspace_binding_version audit.workspace_binding_version

unfoldable pub test_spec_guard :
    Host → ReproductionTestSpecRecord → ProjectReducerState → Result Decision
test_spec_guard h r s =
    if not (
      holds
        (λ plan.
          holds (test_spec_is_bound r plan)
            (get (or_empty s.repository_audits) r.repository_audit_id))
        (get (or_empty s.reproduction_plans) r.plan_id))
    then err test_spec_invalid
    else settle (get (or_empty s.reproduction_test_specs) r.spec.test_spec_id)
        (λ existing. same_reproduction_test_spec_snapshot h existing r) test_spec_invalid
