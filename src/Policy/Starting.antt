-- ===== src/Policy/Starting.antt =====
-- A managed specialist can get to its tools.
use georesearch_dsh.Prelude.{
  String, ◌≡◌, refl, sym, ap, subst, ◌∙◌, Bool, true, false, ◌&&◌, not, Option, none, some, List,
  [], ◌∷◌, arith, ◌==◌, eq_iff, eq_refl, any, filter_if, includes, is_empty, ok,
}
use georesearch_dsh.Policy.Roles.{
  GeoResearchRole, allowlist_for, allowed_skills_for_role, required_skills,
  delegation_bootstrap_tool,
}
use georesearch_dsh.Policy.{
  Denial, Lease, ToolExecution, new_lease, guard_specialist, guard_specialist_skill_protocol,
  guard_and_consume_specialist_tool_budget, budget_for, on_tool_result, skill_name_from_arguments,
  LeaseStep, lease_step, lease_steps,
}
use georesearch_dsh.Policy.Tasks.{managed_skills}
use georesearch_dsh.Policy.Protocol.{loads_skill, steps_effect}

-- The question for a skill.
abbrev pub skill_call : String → ToolExecution
skill_call k = record { tool_name = "skill"; requested = some k; token = 0 }

-- Each of these skills is asked for and loaded.
abbrev pub loading : List String → List LeaseStep
loading [] = []
loading (k ∷ ks) =
    LeaseStep.ask (skill_call k) ∷ LeaseStep.result (skill_call k) false (some k) ∷ loading ks

-- Every skill of a role is a skill.
allowed_is_known :
    (role : GeoResearchRole) (k : String)
    → includes k (allowed_skills_for_role role) ≡ true
    → includes k required_skills ≡ true
unfolding allowed_skills_for_role required_skills includes
allowed_is_known GeoResearchRole.literature k h = ground (arith, h)
allowed_is_known GeoResearchRole.experiment k h = ground (arith, h)
allowed_is_known GeoResearchRole.reviewer k h = ground (arith, h)
allowed_is_known GeoResearchRole.writing k h = ground (arith, h)

loading-loads :
    (role : GeoResearchRole) (ks : List String) (j : String)
    → any (λ k. not (includes k (allowed_skills_for_role role))) ks ≡ false
    → includes j ks ≡ true
    → any (loads_skill role j) (loading ks) ≡ true
unfolding includes any skill_name_from_arguments
loading-loads role [] j h i = cc
loading-loads role (k ∷ ks) j h i =
    ground (arith, h, i, eq_iff j k, eq_refl k, allowed_is_known role k, loading-loads role ks j)

-- The budget is not touched by a question for a skill or by a result.
skill-budget :
    (l : Lease) (k : String) → (guard_specialist l (skill_call k)).1.tool_budget ≡ l.tool_budget
unfolding guard_specialist guard_and_consume_specialist_tool_budget budget_for
skill-budget l k = ground arith

result-budget :
    (l : Lease) (e : ToolExecution) (is_error : Bool) (returned : Option String)
    → (on_tool_result l e is_error returned).tool_budget ≡ l.tool_budget
unfolding on_tool_result
result-budget l e is_error returned = ground arith

loading-budget :
    (l : Lease) (ks : List String) → (lease_steps l (loading ks)).tool_budget ≡ l.tool_budget
unfolding lease_steps lease_step
loading-budget l [] = refl
loading-budget l (k ∷ ks) =
    let asked = (guard_specialist l (skill_call k)).1 in
    loading-budget (on_tool_result asked (skill_call k) false (some k)) ks
    ∙ result-budget asked (skill_call k) false (some k)
    ∙ skill-budget l k

-- A question for a tool of the role, when the protocol is complete and nothing is used up.
ready_is_let_through :
    (l : Lease) (e : ToolExecution)
    → includes e.tool_name (allowlist_for l.role) ≡ true
    → (e.tool_name == delegation_bootstrap_tool) ≡ false
    → (e.tool_name == "skill") ≡ false
    → l.delivered ≡ true
    → is_empty (filter_if (λ k. not (includes k l.loaded_skills)) l.needed_skills) ≡ true
    → l.tool_budget ≡ (new_lease l.role "" []).tool_budget
    → (guard_specialist l e).0 ≡ none
unfolding guard_specialist guard_specialist_skill_protocol new_lease
    guard_and_consume_specialist_tool_budget budget_for
ready_is_let_through l e a b s d f u = ground (
  arith,
  a,
  b,
  s,
  d,
  f,
  ap (λ b. b.literature_provider_calls) u,
  ap (λ b. b.web_search_calls) u,
  ap (λ b. b.source_resolve_calls) u,
)

none_left :
    (test : String → Bool) (ks : List String)
    → ((k : String) → includes k ks ≡ true → test k ≡ true)
    → is_empty (filter_if (λ k. not (test k)) ks) ≡ true
unfolding filter_if includes
none_left test [] h = refl
none_left test (k ∷ ks) h =
    let first = h k (ground (arith, eq_refl k)) in
    let rest = none_left test ks (λ j i. h j (ground (arith, i))) in ground (arith, first, rest)

skill_is_listed : (role : GeoResearchRole) → includes "skill" (allowlist_for role) ≡ true
unfolding allowlist_for includes
skill_is_listed GeoResearchRole.literature = refl
skill_is_listed GeoResearchRole.experiment = refl
skill_is_listed GeoResearchRole.reviewer = refl
skill_is_listed GeoResearchRole.writing = refl

skill_is_let_through :
    (l : Lease) (k : String)
    → l.delivered ≡ true
    → includes k (allowed_skills_for_role l.role) ≡ true
    → ((guard_specialist l (skill_call k)).0 ≡ none)
      × ((guard_specialist l (skill_call k)).1.delivered ≡ true)
      × ((guard_specialist l (skill_call k)).1.role ≡ l.role)
unfolding guard_specialist guard_specialist_skill_protocol skill_name_from_arguments
    guard_and_consume_specialist_tool_budget budget_for
skill_is_let_through l k d a =
    let listed = skill_is_listed l.role in
    let known = allowed_is_known l.role k a in
    (
      ground (arith, d, a, listed, known),
      ground (arith, d, a, listed, known),
      ground (arith, d, a, listed, known),
    )

abbrev let_through : Option Denial → Bool
let_through none = true
let_through (some denial) = false

-- Every question in the sequence is let through.
unfoldable pub no_denial : Lease → List LeaseStep → Bool
no_denial l [] = true
no_denial l (LeaseStep.ask e ∷ steps) =
    let rest = no_denial (lease_step l (LeaseStep.ask e)) steps in
    let_through (guard_specialist l e).0 && rest
no_denial l (LeaseStep.deliver ∷ steps) = no_denial (lease_step l LeaseStep.deliver) steps
no_denial l (LeaseStep.result e is_error returned ∷ steps) =
    no_denial (lease_step l (LeaseStep.result e is_error returned)) steps

result_keeps :
    (l : Lease) (e : ToolExecution) (is_error : Bool) (returned : Option String)
    → ((on_tool_result l e is_error returned).delivered ≡ l.delivered)
      × ((on_tool_result l e is_error returned).role ≡ l.role)
unfolding on_tool_result
result_keeps l e is_error returned = ground arith

loading-no_denial :
    (l : Lease) (ks : List String)
    → l.delivered ≡ true
    → any (λ k. not (includes k (allowed_skills_for_role l.role))) ks ≡ false
    → no_denial l (loading ks) ≡ true
unfolding no_denial lease_step any
loading-no_denial l [] d a = refl
loading-no_denial l (k ∷ ks) d a =
    let asked = (guard_specialist l (skill_call k)).1 in
    let (passed, d', r') = skill_is_let_through l k d (ground (arith, a)) in
    let (d'', r'') = result_keeps asked (skill_call k) false (some k) in
    let rest =
      loading-no_denial (on_tool_result asked (skill_call k) false (some k)) ks (d'' ∙ d') (
        ap (λ r. any (λ k. not (includes k (allowed_skills_for_role r))) ks) (r'' ∙ r')
        ∙ ground (arith, a)) in
    cc (passed, rest)

managed_are_allowed :
    (role : GeoResearchRole) (task_type : String) (skills needed : List String)
    → managed_skills role task_type skills ≡ ok needed
    → any (λ k. not (includes k (allowed_skills_for_role role))) needed ≡ false
unfolding managed_skills
managed_are_allowed role task_type skills needed h = ground (arith, h)

-- If a contract passes the checks of a managed delegation, then a child whose contract is delivered
-- and who asks for each required skill and loads it is denied none of these questions, and is then
-- let through with every tool on the list of its role, other than the one that delivers its
-- contract and the one that loads skills.
pub specialist_can_start :
    (role : GeoResearchRole) (task_type : String) (skills needed : List String) (e : ToolExecution)
    → managed_skills role task_type skills ≡ ok needed
    → includes e.tool_name (allowlist_for role) ≡ true
    → (e.tool_name == delegation_bootstrap_tool) ≡ false
    → (e.tool_name == "skill") ≡ false
    → (no_denial (new_lease role task_type needed) (LeaseStep.deliver ∷ loading needed) ≡ true)
      × ((guard_specialist
            (lease_steps (new_lease role task_type needed) (LeaseStep.deliver ∷ loading needed))
            e).0
          ≡ none)
unfolding new_lease no_denial lease_step lease_steps any
specialist_can_start role task_type skills needed e managed listed b s =
    let l = record (new_lease role task_type needed) { delivered = true } in
    let allowed = managed_are_allowed role task_type skills needed managed in
    let (r, n, d, u) = steps_effect l (loading needed) "" in
    let after = lease_steps l (loading needed) in
    let complete =
      none_left (λ k. includes k after.loaded_skills) needed
        (λ k i.
          let (r', n', d', same) = steps_effect l (loading needed) k in
          ground (arith, same, loading-loads role needed k allowed i)) in
    (
      loading-no_denial l needed refl allowed,
      ready_is_let_through after e
          (subst (λ x. includes e.tool_name (allowlist_for x) ≡ true) (sym r) listed) b s
          (ground (arith, d))
          (subst (λ ks. is_empty (filter_if (λ k. not (includes k after.loaded_skills)) ks) ≡ true)
            (sym n) complete)
          (loading-budget l needed),
    )
