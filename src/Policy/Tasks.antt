-- ===== src/Policy/Tasks.antt =====
-- packages/contracts/src/index.ts: the tasks of the specialists and the skills that they need, and
-- packages/policy-service/src/index.ts: what withManagedDelegation asks of the skills of a contract.
use georesearch_dsh.Prelude.{
  String, not, Option, none, some, List, [], ◌∷◌, any, includes, if◌then◌else◌, Result, ok, err,
  geo_research_error,
}
use georesearch_dsh.Dict.{Dict, get}
use georesearch_dsh.Service.Closure.{distinct}
use georesearch_dsh.Policy.Roles.{GeoResearchRole, allowed_skills_for_role}

-- `REQUIRED_SKILLS_BY_TASK`, whose keys are those of `SPECIALIST_TASK_TYPES`
unfoldable pub required_skills_by_task : GeoResearchRole → Dict (List String)
required_skills_by_task GeoResearchRole.literature =
    ("discovery", "literature-review" ∷ [])
    ∷ ("evidence-extraction", "literature-review" ∷ [])
    ∷ ("evidence-synthesis", "literature-review" ∷ [])
    ∷ ("citation-verification", "literature-review" ∷ [])
    ∷ ("research-gap-analysis", "literature-review" ∷ "remote-sensing-experiment" ∷ [])
    ∷ []
required_skills_by_task GeoResearchRole.experiment =
    ("data-assessment", "geospatial-data" ∷ [])
    ∷ (
      "experiment-design",
      "remote-sensing-experiment" ∷ "geospatial-data" ∷ "spatial-statistics" ∷ [],
    )
    ∷ ("reproduction", "paper-reproduction" ∷ [])
    ∷ ("implementation", "remote-sensing-experiment" ∷ "geospatial-data" ∷ [])
    ∷ ("run-preparation", "remote-sensing-experiment" ∷ "geospatial-data" ∷ [])
    ∷ []
required_skills_by_task GeoResearchRole.reviewer =
    ("evidence-review", "scientific-validation" ∷ "literature-review" ∷ [])
    ∷ ("data-review", "scientific-validation" ∷ "geospatial-data" ∷ "spatial-statistics" ∷ [])
    ∷ (
      "protocol-review",
      "scientific-validation" ∷ "remote-sensing-experiment" ∷ "spatial-statistics" ∷ [],
    )
    ∷ ("result-review", "scientific-validation" ∷ "spatial-statistics" ∷ [])
    ∷ ("reproduction-review", "scientific-validation" ∷ "paper-reproduction" ∷ [])
    ∷ ("claim-review", "scientific-validation" ∷ [])
    ∷ (
      "proposal-review",
      "scientific-validation" ∷ "literature-review" ∷ "remote-sensing-experiment"
          ∷ "spatial-statistics" ∷ [],
    )
    ∷ ("manuscript-review", "scientific-validation" ∷ "manuscript-writing" ∷ [])
    ∷ []
required_skills_by_task GeoResearchRole.writing =
    ("outline", "manuscript-writing" ∷ [])
    ∷ ("section-draft", "manuscript-writing" ∷ [])
    ∷ ("full-manuscript", "manuscript-writing" ∷ [])
    ∷ ("revision", "manuscript-writing" ∷ [])
    ∷ []

abbrev checked_skills : GeoResearchRole → List String → Option (List String) → Result (List String)
checked_skills role needed none = err (geo_research_error "GEORESEARCH_SPECIALIST_TASK_INVALID")
checked_skills role needed (some baseline) =
    if any (λ k. not (includes k needed)) baseline
    then err (geo_research_error "GEORESEARCH_SPECIALIST_SKILL_REQUIRED")
    else if any (λ k. not (includes k (allowed_skills_for_role role))) needed
    then err (geo_research_error "GEORESEARCH_SPECIALIST_SKILL_FORBIDDEN")
    else ok needed

-- The checks of `withManagedDelegation` on the task and the skills of a contract, and the skills
-- that the lease of the child requires. The task is on the list of the role.
unfoldable pub managed_skills : GeoResearchRole → String → List String → Result (List String)
unfolding required_skills_by_task
managed_skills role task_type skills =
    checked_skills role (distinct skills) (get (required_skills_by_task role) task_type)
