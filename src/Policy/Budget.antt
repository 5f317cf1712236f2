-- ===== src/Policy/Budget.antt =====
-- How often a specialist calls the tools that have a budget.
use georesearch_dsh.Prelude.{
  ℕ, suc, ◌≡◌, any, nat_eq, Bool, true, false, ◌&&◌, not, Option, none, some, List, [], ◌∷◌, ◌==◌,
  if◌then◌else◌,
}
use georesearch_dsh.Policy.{
  Denial, Lease, ToolExecution, BudgetField, budget_for, is_literature, is_budgeted,
  guard_specialist, LeaseStep, lease_step,
}

abbrev is_admitted : Option Denial → Bool
is_admitted none = true
is_admitted (some denial) = false

-- All executions that are let through while these steps are taken, in order.
unfoldable pub let_through : Lease → List LeaseStep → List ToolExecution
let_through l [] = []
let_through l (LeaseStep.ask e ∷ steps) =
    let rest = let_through (lease_step l (LeaseStep.ask e)) steps in
    if is_admitted (guard_specialist l e).0 then e ∷ rest else rest
let_through l (LeaseStep.deliver ∷ steps) = let_through (lease_step l LeaseStep.deliver) steps
let_through l (LeaseStep.result e is_error returned ∷ steps) =
    let_through (lease_step l (LeaseStep.result e is_error returned)) steps

-- The first execution of each token that is not among those seen before.
unfoldable pub one_each : List ℕ → List ToolExecution → List ToolExecution
one_each seen [] = []
one_each seen (e ∷ es) =
    let old = one_each seen es in
    let new = one_each (e.token ∷ seen) es in if any (nat_eq e.token) seen then old else e ∷ new

abbrev same_field : BudgetField → BudgetField → Bool
same_field BudgetField.provider_calls BudgetField.provider_calls = true
same_field BudgetField.search_calls BudgetField.search_calls = true
same_field BudgetField.resolve_calls BudgetField.resolve_calls = true
same_field _ _ = false

abbrev charged : BudgetField → Option BudgetField → Bool
charged f none = false
charged f (some g) = same_field f g

-- How many of the executions are of a tool that this counter is for.
unfoldable pub charges : BudgetField → List ToolExecution → ℕ
charges f [] = 0
charges f (e ∷ es) =
    let rest = charges f es in if charged f (budget_for e.tool_name) then suc rest else rest

IsDiscovery : Lease → Type 0
IsDiscovery l = (is_literature l.role ≡ true) × ((l.task_type == "discovery") ≡ true)

-- The execution is let through, and no other one with its token was.
abbrev is_new : Lease → ToolExecution → Bool
is_new l e = is_admitted (guard_specialist l e).0 && not (is_budgeted l e)
