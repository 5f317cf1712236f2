-- ===== src/Examples/Permitting.antt =====
-- A literature specialist with the task `discovery`, from its contract to its tools.
use georesearch_dsh.Prelude.{
  ◌≡◌, refl, true, false, none, some, List, [], ◌∷◌, any, includes, filter_if, All, String,
}
use georesearch_dsh.Policy.Roles.{
  GeoResearchRole, allowlist_for, allowed_skills_for_role, required_skills,
}
use georesearch_dsh.Policy.{
  Denial, Lease, ToolExecution, new_lease, budget_for, skill_name_from_arguments, guard_specialist,
  guard_specialist_skill_protocol, guard_and_consume_specialist_tool_budget, on_tool_result,
  LeaseStep, lease_step, lease_steps,
}
use georesearch_dsh.Policy.Budget.{one_each, let_through}
use georesearch_dsh.Prelude.{err, geo_research_error}
use georesearch_dsh.Dict.{get}
use georesearch_dsh.Service.Closure.{distinct}
use georesearch_dsh.Policy.Tasks.{managed_skills, required_skills_by_task}
use georesearch_dsh.Policy.Starting.{no_denial, loading, specialist_can_start}
use georesearch_dsh.Policy.Protocol.{is_delivery, loads_skill, skills_before_tools}

abbrev load : ToolExecution
load = record { tool_name = "skill"; requested = some "literature-review"; token = 1 }

abbrev search : ToolExecution
search = record { tool_name = "web_search"; requested = none; token = 2 }

abbrev search_more : ToolExecution
search_more = record { tool_name = "web_search"; requested = none; token = 3 }

abbrev skills : List String
skills = "literature-review" ∷ []

abbrev lease : Lease
lease = new_lease GeoResearchRole.literature "discovery" skills

abbrev opening : List LeaseStep
opening =
    LeaseStep.deliver
    ∷ LeaseStep.ask load
    ∷ LeaseStep.result load false (some "literature-review")
    ∷ []

abbrev searching : List LeaseStep
searching =
    LeaseStep.deliver
    ∷ LeaseStep.ask search
    ∷ LeaseStep.result load false (some "literature-review")
    ∷ LeaseStep.ask search
    ∷ LeaseStep.ask search_more
    ∷ LeaseStep.ask search
    ∷ []

-- The second search is refused, and the first is let through once more under its token.
searches : one_each [] (let_through lease searching) ≡ search ∷ []
unfolding let_through one_each lease_step guard_specialist guard_specialist_skill_protocol
    guard_and_consume_specialist_tool_budget on_tool_result skill_name_from_arguments new_lease
    allowlist_for required_skills allowed_skills_for_role budget_for includes filter_if any
searches = refl

too_early : (guard_specialist lease search).0 ≡ some Denial.bootstrap_required
unfolding guard_specialist guard_specialist_skill_protocol new_lease allowlist_for includes
too_early = refl

skills_before_tools_example :
    (includes "web_search" (allowlist_for GeoResearchRole.literature) ≡ true)
    × (any is_delivery opening ≡ true)
    × All (λ k. any (loads_skill GeoResearchRole.literature k) opening ≡ true) skills
unfolding lease_steps lease_step guard_specialist guard_specialist_skill_protocol
    guard_and_consume_specialist_tool_budget on_tool_result skill_name_from_arguments new_lease
    allowlist_for required_skills allowed_skills_for_role budget_for includes filter_if any
skills_before_tools_example =
    skills_before_tools GeoResearchRole.literature "discovery" skills opening search refl refl refl

forgotten_skill :
    managed_skills GeoResearchRole.literature "research-gap-analysis" skills
    ≡ err (geo_research_error "GEORESEARCH_SPECIALIST_SKILL_REQUIRED")
unfolding managed_skills distinct required_skills_by_task get filter_if any includes
forgotten_skill = refl

specialist_can_start_example :
    (no_denial lease (LeaseStep.deliver ∷ loading skills) ≡ true)
    × ((guard_specialist (lease_steps lease (LeaseStep.deliver ∷ loading skills)) search).0 ≡ none)
unfolding managed_skills distinct required_skills_by_task get filter_if any includes
    allowed_skills_for_role allowlist_for
specialist_can_start_example =
    specialist_can_start GeoResearchRole.literature "discovery" skills skills search refl refl refl
      refl
