-- ===== src/Policy/Protocol.antt =====
-- What a specialist has done before it gets to its tools.
use georesearch_dsh.Prelude.{
  String, ◌≡◌, refl, ap, subst, ◌∙◌, Bool, true, false, ◌&&◌, ◌||◌, not, Option, none, some, List,
  [], ◌∷◌, arith, ◌==◌, eq_iff, any, filter_if, includes, is_empty, All,
}
use georesearch_dsh.Policy.Roles.{
  GeoResearchRole, allowlist_for, allowed_skills_for_role, delegation_bootstrap_tool,
}
use georesearch_dsh.Policy.{
  Lease, ToolExecution, new_lease, guard_specialist, guard_specialist_skill_protocol,
  guard_and_consume_specialist_tool_budget, on_tool_result, load_skill, skill_name_from_arguments,
  LeaseStep, lease_step, lease_steps,
}

abbrev pub is_delivery : LeaseStep → Bool
is_delivery LeaseStep.deliver = true
is_delivery _ = false

-- The result of the tool `skill` for this skill, which is no error, names it, and the role may
-- load it.
abbrev loads :
    GeoResearchRole → String → ToolExecution → Bool → Option String → Option String → Bool
loads role k e is_error (some requested) (some returned) =
    e.tool_name == "skill"
    && not is_error
    && k == requested
    && returned == requested
    && includes k (allowed_skills_for_role role)
loads role k e is_error _ _ = false

abbrev pub loads_skill : GeoResearchRole → String → LeaseStep → Bool
loads_skill role k (LeaseStep.result e is_error returned) =
    loads role k e is_error (skill_name_from_arguments e) returned
loads_skill role k _ = false

loaded :
    (l : Lease) (e : ToolExecution) (is_error : Bool) (requested returned : Option String)
    (k : String)
    → ((load_skill l e is_error requested returned).role ≡ l.role)
      × ((load_skill l e is_error requested returned).needed_skills ≡ l.needed_skills)
      × ((load_skill l e is_error requested returned).delivered ≡ l.delivered)
      × (includes k (load_skill l e is_error requested returned).loaded_skills
          ≡ (loads l.role k e is_error requested returned || includes k l.loaded_skills))
unfolding includes
loaded l e is_error none returned k = (refl, refl, refl, refl)
loaded l e is_error (some requested) none k = (refl, refl, refl, refl)
loaded l e is_error (some requested) (some returned) k = ground (arith, eq_iff k requested)

-- What one step does to the parts of a lease that the protocol reads.
step_effect :
    (l : Lease) (x : LeaseStep) (k : String)
    → ((lease_step l x).role ≡ l.role)
      × ((lease_step l x).needed_skills ≡ l.needed_skills)
      × ((lease_step l x).delivered ≡ (is_delivery x || l.delivered))
      × (includes k (lease_step l x).loaded_skills
          ≡ (loads_skill l.role k x || includes k l.loaded_skills))
unfolding lease_step guard_specialist on_tool_result guard_and_consume_specialist_tool_budget
    includes
step_effect l LeaseStep.deliver k = (refl, refl, refl, refl)
step_effect l (LeaseStep.ask e) k = ground arith
step_effect l (LeaseStep.result e is_error returned) k =
    loaded l e is_error (skill_name_from_arguments e) returned k

pub steps_effect :
    (l : Lease) (steps : List LeaseStep) (k : String)
    → ((lease_steps l steps).role ≡ l.role)
      × ((lease_steps l steps).needed_skills ≡ l.needed_skills)
      × ((lease_steps l steps).delivered ≡ (any is_delivery steps || l.delivered))
      × (includes k (lease_steps l steps).loaded_skills
          ≡ (any (loads_skill l.role k) steps || includes k l.loaded_skills))
unfolding lease_steps any
steps_effect l [] k = (refl, refl, refl, refl)
steps_effect l (x ∷ steps) k =
    let (role, needed, delivered, skills) = step_effect l x k in
    let (role', needed', delivered', skills') = steps_effect (lease_step l x) steps k in
    (
      role' ∙ role,
      needed' ∙ needed,
      ground (arith, delivered, delivered'),
      skills'
          ∙ ap (λ r. any (loads_skill r k) steps || includes k (lease_step l x).loaded_skills) role
          ∙ ground (arith, skills),
    )

none_missing :
    (test : String → Bool) (ks : List String)
    → is_empty (filter_if (λ k. not (test k)) ks) ≡ true
    → All (λ k. test k ≡ true) ks
unfolding filter_if
none_missing test [] h = tt
none_missing test (k ∷ ks) h = (ground (arith, h), none_missing test ks (ground (arith, h)))

map-All :
    (p q : String → Type 0) (ks : List String) → ((k : String) → p k → q k) → All p ks → All q ks
map-All p q [] f h = tt
map-All p q (k ∷ ks) f (first, rest) = (f k first, map-All p q ks f rest)

-- What a lease is like whose guard lets a tool through.
let_through :
    (l : Lease) (e : ToolExecution)
    → (e.tool_name == delegation_bootstrap_tool) ≡ false
    → (e.tool_name == "skill") ≡ false
    → (guard_specialist l e).0 ≡ none
    → (includes e.tool_name (allowlist_for l.role) ≡ true)
      × (l.delivered ≡ true)
      × (is_empty (filter_if (λ k. not (includes k l.loaded_skills)) l.needed_skills) ≡ true)
unfolding guard_specialist guard_specialist_skill_protocol
let_through l e b s h = ground (arith, b, s, h)

-- If the guard lets a specialist use a tool, other than the one that delivers its contract and the
-- one that loads skills, after any sequence of steps from a new lease, then the tool is on the list
-- of its role, the contract has been delivered in the sequence, and for each of its required skills
-- the sequence has a result that loads it.
pub skills_before_tools :
    (role : GeoResearchRole) (task_type : String) (skills : List String) (steps : List LeaseStep)
    (e : ToolExecution)
    → (e.tool_name == delegation_bootstrap_tool) ≡ false
    → (e.tool_name == "skill") ≡ false
    → (guard_specialist (lease_steps (new_lease role task_type skills) steps) e).0 ≡ none
    → (includes e.tool_name (allowlist_for role) ≡ true)
      × (any is_delivery steps ≡ true)
      × All (λ k. any (loads_skill role k) steps ≡ true) skills
unfolding new_lease includes
skills_before_tools role task_type skills steps e b s h =
    let l = new_lease role task_type skills in
    let (role', needed, delivered, u) = steps_effect l steps "" in
    let (listed, ready, complete) = let_through (lease_steps l steps) e b s h in
    (
      subst (λ r. includes e.tool_name (allowlist_for r) ≡ true) role' listed,
      ground (arith, delivered, ready),
      map-All (λ k. includes k (lease_steps l steps).loaded_skills ≡ true)
          (λ k. any (loads_skill role k) steps ≡ true) skills
          (λ k found. let (r, n, d, same) = steps_effect l steps k in ground (arith, same, found))
          (subst (All (λ k. includes k (lease_steps l steps).loaded_skills ≡ true)) needed (
            none_missing (λ k. includes k (lease_steps l steps).loaded_skills)
              (lease_steps l steps).needed_skills complete)),
    )
