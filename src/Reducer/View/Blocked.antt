-- ===== src/Reducer/View/Blocked.antt =====
-- How events show in the readiness of a project (reducer.ts).
use georesearch_dsh.Prelude.{
  String, ◌≡◌, refl, sym, ap, ◌∙◌, subst, true, false, ◌||◌, Option, none, some, List, [], ◌∷◌,
  ◌++◌, arith, is_empty, includes, includes-sort_strings, includes-unique, if◌then◌else◌, ok,
  ok-injective,
}
use georesearch_dsh.Dict.{get}
use georesearch_dsh.Contracts.State.{ProjectReducerState, ProjectReadiness, ProjectReadinessDomain}
use georesearch_dsh.Contracts.Event.{
  ProjectEvent, ProjectEventData, project_blockers_updated, artifacts_staled,
  artifact_upload_rolled_back, deliverable_published, project_created, unsupported,
}
use georesearch_dsh.Contracts.Artifact.{ArtifactRecord}
use georesearch_dsh.Reducer.{reduce_project_event}
use georesearch_dsh.Reducer.Apply.{apply_event, publish_checked, remove_found}
use georesearch_dsh.Reducer.Step.{reduce-apply}
use georesearch_dsh.Reducer.History.{Ensures}
use georesearch_dsh.Reducer.View.{own_readiness, is_scope, readiness_for}

own_readiness-blockers :
    (s : ProjectReducerState) (blockers : List String) (d : ProjectReadinessDomain)
    → own_readiness d (record s { blockers = blockers })
      ≡ own_readiness d (record s { blockers = [] })
unfolding own_readiness
own_readiness-blockers s blockers ProjectReadinessDomain.scope = refl
own_readiness-blockers s blockers _ = refl

decide :
    (s : ProjectReducerState) (blockers : List String) (d : ProjectReadinessDomain)
    → readiness_for d (record s { blockers = blockers }) ≡ (
        if is_empty blockers || is_scope d
        then readiness_for d (record s { blockers = [] })
        else ProjectReadiness.blocked)
unfolding readiness_for
decide s [] d = refl
decide s (b ∷ bs) d = rw (own_readiness-blockers s (b ∷ bs) d) (ground arith)

-- An event that sets the blockers decides the readiness: if there are blockers, every domain but the
-- scope is blocked, and otherwise every domain is what it would be in the old state without blockers.
pub blockers_decide :
    (s t : ProjectReducerState) (e : ProjectEvent) (blockers : List String)
    (d : ProjectReadinessDomain)
    → e.content ≡ project_blockers_updated blockers
    → reduce_project_event (some s) e ≡ ok t
    → readiness_for d t ≡ (
        if is_empty blockers || is_scope d
        then readiness_for d (record s { blockers = [] })
        else ProjectReadiness.blocked)
unfolding apply_event
blockers_decide s t e blockers d c h =
    let made = ok-injective (sym (ap (apply_event s e.time) c) ∙ sym (reduce-apply s e) ∙ h) in
    ap (readiness_for d) (sym made) ∙ decide s blockers d

includes-append :
    (x : String) (xs ys : List String) → includes x xs ≡ true → includes x (xs ++ ys) ≡ true
unfolding includes
includes-append x [] ys m = cc
includes-append x (z ∷ zs) ys m = ground (arith, includes-append x zs ys)

-- The indicators of `s` are among those of `t`.
abbrev KeepsIndicators : ProjectReducerState → ProjectReducerState → Type 0
KeepsIndicators s t =
    (x : String) → includes x s.stale_indicators ≡ true → includes x t.stale_indicators ≡ true

apply-KeepsIndicators :
    (s : ProjectReducerState) (time : String) (e : ProjectEventData)
    → Ensures (KeepsIndicators s) (apply_event s time e)
unfolding apply_event
apply-KeepsIndicators s time (deliverable_published a) = go a.source_relative_path
  where
    go : (o : Option String) → Ensures (KeepsIndicators s) (publish_checked s a o)
    go none = tt
    go (some p) = λ x m. m
apply-KeepsIndicators s time (artifact_upload_rolled_back k a d w) = go (get s.artifacts k)
  where
    go : (o : Option ArtifactRecord) → KeepsIndicators s (remove_found s k o)
    go none = λ x m. m
    go (some r) = λ x m. m
apply-KeepsIndicators s time (artifacts_staled ids indicators) = λ x m.
    includes-sort_strings x _
    ∙ includes-unique x _
    ∙ includes-append x s.stale_indicators indicators m
apply-KeepsIndicators s time (project_created b w) = tt
apply-KeepsIndicators s time (unsupported t d) = tt
apply-KeepsIndicators s time _ = λ x m. m

not_empty : (x : String) (xs : List String) → includes x xs ≡ true → is_empty xs ≡ false
unfolding includes
not_empty x [] m = cc
not_empty x (y ∷ ys) m = refl

-- Once a project has an indicator of stale results, no event removes it, and after every event each
-- domain but the scope is stale, or blocked if the project has blockers.
pub stale_stays :
    (s t : ProjectReducerState) (e : ProjectEvent) (x : String) (d : ProjectReadinessDomain)
    → reduce_project_event (some s) e ≡ ok t
    → includes x s.stale_indicators ≡ true
    → is_scope d ≡ false
    → (includes x t.stale_indicators ≡ true)
      × (readiness_for d t
          ≡ (if is_empty t.blockers then ProjectReadiness.stale else ProjectReadiness.blocked))
unfolding readiness_for
stale_stays s t e x d h m o =
    let kept =
      subst (Ensures (KeepsIndicators s)) (sym (reduce-apply s e) ∙ h)
        (apply-KeepsIndicators s e.time e.content) x m in
    (kept, ground (arith, o, not_empty x t.stale_indicators kept))
