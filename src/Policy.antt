-- ===== src/Policy.antt =====
-- packages/policy-service/src/index.ts: GeoResearchPolicy, the guard on the tools of a specialist.
-- The agent has the live preset and is bound to its lease, and the installation is current.
pub mod Roles
pub mod Budget
pub mod Protocol
pub mod Tasks
pub mod Starting
use georesearch_dsh.Prelude.{
  ℕ, suc, nat_eq, leb, String, Bool, true, false, ◌&&◌, ◌||◌, not, Option, none, some, List, [],
  ◌∷◌, ◌==◌, any, filter_if, includes, is_empty, if◌then◌else◌,
}
use georesearch_dsh.Policy.Roles.{
  GeoResearchRole, allowlist_for, allowed_skills_for_role, required_skills,
  delegation_bootstrap_tool,
}

-- The codes of a denial.
pub data Denial : Type 0 where
  tool_forbidden bootstrap_required bootstrap_already_delivered skill_forbidden skill_required :
      Denial

-- `SpecialistToolBudgetState`
pub record ToolBudget : Type 0 where
  pub literature_provider_calls : ℕ
  pub web_search_calls : ℕ
  pub source_resolve_calls : ℕ

-- `ManagedChildLease`. The token of an execution is an object, known by a number.
pub record Lease : Type 0 where
  pub role : GeoResearchRole
  pub task_type : String
  pub needed_skills : List String
  pub loaded_skills : List String
  pub delivered : Bool
  pub tool_budget : ToolBudget
  pub budgeted_executions : List ℕ

-- The part of a ToolExecution that is read; `requested` is the field `name` of its arguments, if
-- that is a string.
pub record ToolExecution : Type 0 where
  pub tool_name : String
  pub requested : Option String
  pub token : ℕ

unfoldable pub new_lease : GeoResearchRole → String → List String → Lease
new_lease role task_type skills = record {
  role = role;
  task_type = task_type;
  needed_skills = skills;
  loaded_skills = [];
  delivered = false;
  tool_budget = record {
    literature_provider_calls = 0;
    web_search_calls = 0;
    source_resolve_calls = 0;
  };
  budgeted_executions = [];
}

abbrev pub known : Option String → Option String
known none = none
known (some k) = if includes k required_skills then some k else none

-- `skillNameFromArguments`
unfoldable pub skill_name_from_arguments : ToolExecution → Option String
skill_name_from_arguments e = known e.requested

abbrev pub guard_skill : GeoResearchRole → Option String → Option Denial
guard_skill role none = some Denial.skill_forbidden
guard_skill role (some k) =
    if includes k (allowed_skills_for_role role) then none else some Denial.skill_forbidden

-- `guardSpecialistSkillProtocol`
unfoldable pub guard_specialist_skill_protocol : Lease → ToolExecution → Option Denial
guard_specialist_skill_protocol l e =
    if not l.delivered
    then (if e.tool_name == delegation_bootstrap_tool then none else some Denial.bootstrap_required)
    else if e.tool_name == delegation_bootstrap_tool
    then some Denial.bootstrap_already_delivered
    else if e.tool_name == "skill"
    then guard_skill l.role (skill_name_from_arguments e)
    else if is_empty (filter_if (λ k. not (includes k l.loaded_skills)) l.needed_skills)
    then none
    else some Denial.skill_required

-- The counters of a budget.
pub data BudgetField : Type 0 where
  provider_calls search_calls resolve_calls : BudgetField

unfoldable pub budget_for : String → Option BudgetField
budget_for name =
    if name == "literature_search" || name == "literature_continue"
    then some BudgetField.provider_calls
    else if name == "web_search"
    then some BudgetField.search_calls
    else if name == "source_resolve"
    then some BudgetField.resolve_calls
    else none

abbrev pub limit : BudgetField → ℕ
limit BudgetField.provider_calls = 2
limit BudgetField.search_calls = 1
limit BudgetField.resolve_calls = 4

abbrev pub calls : BudgetField → ToolBudget → ℕ
calls BudgetField.provider_calls b = b.literature_provider_calls
calls BudgetField.search_calls b = b.web_search_calls
calls BudgetField.resolve_calls b = b.source_resolve_calls

abbrev pub count_call : BudgetField → ToolBudget → ToolBudget
count_call BudgetField.provider_calls b = record b {
  literature_provider_calls = suc b.literature_provider_calls;
}
count_call BudgetField.search_calls b = record b { web_search_calls = suc b.web_search_calls }
count_call BudgetField.resolve_calls b = record b {
  source_resolve_calls = suc b.source_resolve_calls;
}

abbrev pub is_literature : GeoResearchRole → Bool
is_literature GeoResearchRole.literature = true
is_literature _ = false

abbrev pub consume : Option BudgetField → ToolBudget → Option Denial × ToolBudget
consume none b = (none, b)
consume (some f) b =
    if leb (limit f) (calls f b) then (some Denial.tool_forbidden, b) else (none, count_call f b)

-- `guardAndConsumeSpecialistToolBudget`
unfoldable pub guard_and_consume_specialist_tool_budget :
    Lease → ToolExecution → Option Denial × ToolBudget
guard_and_consume_specialist_tool_budget l e =
    if not (is_literature l.role && l.task_type == "discovery")
    then (none, l.tool_budget)
    else consume (budget_for e.tool_name) l.tool_budget

abbrev pub guard_budget : Lease → ToolExecution → Option Denial × ToolBudget → Option Denial × Lease
guard_budget l e (some denial, b) = (some denial, record l { tool_budget = b })
guard_budget l e (none, b) =
    (none, record l { tool_budget = b; budgeted_executions = e.token ∷ l.budgeted_executions })

abbrev pub is_budgeted : Lease → ToolExecution → Bool
is_budgeted l e = any (nat_eq e.token) l.budgeted_executions

abbrev pub guard_admitted : Lease → ToolExecution → Option Denial → Option Denial × Lease
guard_admitted l e (some denial) = (some denial, l)
guard_admitted l e none =
    if is_budgeted l e
    then (none, l)
    else guard_budget l e (guard_and_consume_specialist_tool_budget l e)

-- `guard`, for a specialist
unfoldable pub guard_specialist : Lease → ToolExecution → Option Denial × Lease
guard_specialist l e =
    if not (includes e.tool_name (allowlist_for l.role))
    then (some Denial.tool_forbidden, l)
    else guard_admitted l e (guard_specialist_skill_protocol l e)

abbrev pub load_skill : Lease → ToolExecution → Bool → Option String → Option String → Lease
load_skill l e is_error (some requested) (some returned) =
    if e.tool_name == "skill"
      && not is_error
      && returned == requested
      && includes requested (allowed_skills_for_role l.role)
    then record l { loaded_skills = requested ∷ l.loaded_skills }
    else l
load_skill l e is_error _ _ = l

-- `onToolResult`, for a specialist; `returned` is the name in the value of the result.
unfoldable pub on_tool_result : Lease → ToolExecution → Bool → Option String → Lease
on_tool_result l e is_error returned =
    load_skill l e is_error (skill_name_from_arguments e) returned

-- What happens to a lease: the contract is delivered (`consumeDelegationBootstrap`, which throws the
-- second time and changes nothing then), a tool is asked for, or one has returned a value with this
-- name.
pub data LeaseStep : Type 0 where
  deliver : LeaseStep
  ask : ToolExecution → LeaseStep
  result : ToolExecution → Bool → Option String → LeaseStep

unfoldable pub lease_step : Lease → LeaseStep → Lease
unfolding on_tool_result guard_specialist
lease_step l LeaseStep.deliver = record l { delivered = true }
lease_step l (LeaseStep.ask e) = (guard_specialist l e).1
lease_step l (LeaseStep.result e is_error returned) = on_tool_result l e is_error returned

unfoldable pub lease_steps : Lease → List LeaseStep → Lease
lease_steps l [] = l
lease_steps l (x ∷ xs) = lease_steps (lease_step l x) xs
