-- ===== src/Reducer/Artifacts.antt =====
-- The validity of artifacts under `deliverable.published`, `artifacts.staled` and the rollback of an
-- upload (reducer.ts).
use georesearch_dsh.Prelude.{
  String, ◌≡◌, ◌≢◌, ◌⊎◌, refl, sym, subst, ◌∙◌, Bool, true, false, ◌&&◌, Option, none, some, List,
  ◌++◌, arith, ◌==◌, eq_iff, eq_refl, if◌then◌else◌, ok, ok-injective, inl, inr, includes,
  Bool-cases, includes-unique, includes-sort_strings, ap,
}
use georesearch_dsh.Dict.{Dict, get, map_option, get-remove}
use georesearch_dsh.Contracts.Artifact.{ArtifactRecord, ArtifactValidity}
use georesearch_dsh.Contracts.State.{ProjectReducerState}
use georesearch_dsh.Contracts.Event.{
  ProjectEvent, deliverable_published, artifacts_staled, artifact_upload_rolled_back,
}
use georesearch_dsh.Reducer.{reduce_project_event}
use georesearch_dsh.Reducer.Apply.{apply_event, publish_checked, remove_found}
use georesearch_dsh.Reducer.Maps.{publish, supersede, same_path, is_current}
use georesearch_dsh.Reducer.Lookup.{get-publish, get-stale_all, make_stale}
use georesearch_dsh.Reducer.Step.{reduce-apply}
use georesearch_dsh.Reducer.Keyed.{IsKeyed}

-- Both artifacts stand for the same file of the same workspace.
abbrev pub SameFile : ArtifactRecord → ArtifactRecord → Type 0
SameFile a b = (a.workspace_id ≡ b.workspace_id) × (a.source_relative_path ≡ b.source_relative_path)

-- There is a current record for the same file.
abbrev pub is_current_of : ArtifactRecord → Option ArtifactRecord → Bool
is_current_of a none = false
is_current_of a (some b) =
    b.workspace_id == a.workspace_id
    && same_path b.source_relative_path a.source_relative_path
    && is_current b.validity

same_path_refl : (o : Option String) → same_path o o ≡ true
same_path_refl none = refl
same_path_refl (some s) = eq_refl s

published :
    (s t : ProjectReducerState) (time : String) (a : ArtifactRecord)
    → apply_event s time (deliverable_published a) ≡ ok t
    → t.artifacts ≡ publish s.artifacts a
unfolding apply_event
published s t time a h = go a.source_relative_path h
  where
    go : (o : Option String) → publish_checked s a o ≡ ok t → t.artifacts ≡ publish s.artifacts a
    go none e = cc
    go (some p) e = ground arith

-- The record that is left of another one of the same file is not current.
superseded_of_SameFile :
    (a b : ArtifactRecord)
    → SameFile b a
    → b.artifact_id ≢ a.artifact_id
    → (supersede a b).validity ≢ ArtifactValidity.current
unfolding supersede
superseded_of_SameFile a b f h c = ground (
  arith,
  eq_iff b.workspace_id a.workspace_id,
  eq_iff b.artifact_id a.artifact_id,
  same_path_refl a.source_relative_path,
  ap (λ o. same_path o a.source_relative_path) f.1,
)

supersede-SameFile : (a c : ArtifactRecord) → SameFile (supersede a c) a → SameFile c a
unfolding supersede
supersede-SameFile a c f = (ground (arith, f.0), ground (arith, f.1))

sole_found :
    (a b : ArtifactRecord) (k : String) (o : Option ArtifactRecord)
    → ((c : ArtifactRecord) → o ≡ some c → c.artifact_id ≡ k)
    → a.artifact_id ≢ k
    → map_option (supersede a) o ≡ some b
    → SameFile b a
    → b.validity ≢ ArtifactValidity.current
sole_found a b k none filed ne e f = cc
sole_found a b k (some c) filed ne e f =
    let same : supersede a c ≡ b = ground arith in
    subst (λ (x : ArtifactRecord). x.validity ≢ ArtifactValidity.current) same
      (superseded_of_SameFile a c
        (supersede-SameFile a c (subst (λ (x : ArtifactRecord). SameFile x a) (sym same) f))
        (λ e'. ne (sym e' ∙ filed c refl)))

sole_current :
    (s : ProjectReducerState) (a b : ArtifactRecord) (k : String)
    → IsKeyed s
    → get (publish s.artifacts a) k ≡ some b
    → SameFile b a
    → b.validity ≡ ArtifactValidity.current
    → b ≡ a
sole_current s a b k keyed h f c = elim (Bool-cases (a.artifact_id == k)) [
  | inl e ↦ cc (
    get-publish s.artifacts a k,
    ap (λ x. if x then some a else map_option (supersede a) (get s.artifacts k)) e,
  )
  | inr e ↦ absurd (
      sole_found a b k (get s.artifacts k) (keyed.artifacts.under k) (λ q. cc (e, (eq_iff _ k).1 q))
        (sym (get-publish s.artifacts a k ∙ rw e) ∙ h) f c)
]

same_path_eq : (o p : Option String) → same_path o p ≡ true → o ≡ p
same_path_eq none none h = refl
same_path_eq (some a) (some b) h = ap {B = Option String} some ((eq_iff a b).0 h)
same_path_eq none (some b) h = cc
same_path_eq (some a) none h = cc

supersede_other : (a b : ArtifactRecord) → ¬ (SameFile b a) → supersede a b ≡ b
unfolding supersede
supersede_other a b h = elim (Bool-cases (b.workspace_id == a.workspace_id)) [
  | inr e ↦ rw e
  | inl e ↦ elim (Bool-cases (same_path b.source_relative_path a.source_relative_path)) [
    | inr e' ↦ rw (e, e')
    | inl e' ↦ absurd (h ((eq_iff _ _).0 e, same_path_eq _ _ e'))
  ]
]

other_kept :
    (m : Dict ArtifactRecord) (a b : ArtifactRecord) (k : String)
    → get m k ≡ some b
    → k ≢ a.artifact_id
    → ¬ (SameFile b a)
    → get (publish m a) k ≡ some b
other_kept m a b k g ne other = elim (Bool-cases (a.artifact_id == k)) [
  | inl e ↦ absurd (ne (sym ((eq_iff _ _).0 e)))
  | inr e ↦
      get-publish m a k
      ∙ rw (e, g) (ap {B = Option ArtifactRecord} some (supersede_other a b other))
]

module _ (s t : ProjectReducerState) (e : ProjectEvent) (a : ArtifactRecord)
    (content : e.content ≡ deliverable_published a)
    (reduced : reduce_project_event (some s) e ≡ ok t) where
  artifacts_after : t.artifacts ≡ publish s.artifacts a
  artifacts_after =
      published s t e.time a
        (sym (ap (apply_event s e.time) content) ∙ sym (reduce-apply s e) ∙ reduced)

  sole :
      (k : String) (o : Option ArtifactRecord)
      → IsKeyed s
      → get t.artifacts k ≡ o
      → (is_current_of a o ≡ false) ⊎ (o ≡ some a)
  sole k none keyed g = inl refl
  sole k (some b) keyed g = elim (Bool-cases (is_current_of a (some b))) [
    | inr e ↦ inl e
    | inl e ↦
        let file : SameFile b a = (
          ground (arith, e, eq_iff b.workspace_id a.workspace_id),
          same_path_eq b.source_relative_path a.source_relative_path (ground (arith, e)),
        ) in
        inr (
          ap {B = Option ArtifactRecord} some (
            sole_current s a b k keyed (ap (λ m. get m k) (sym artifacts_after) ∙ g) file
              (ground (arith, e))))
  ]

  -- After a deliverable is published, in a state whose records stand under their ids, its record is in
  -- the state, and what stands under any key is that record, or is no current record of the same path of
  -- the same workspace.
  pub publish_sole_current :
      (k : String)
      → IsKeyed s
      → (get t.artifacts a.artifact_id ≡ some a)
        × ((is_current_of a (get t.artifacts k) ≡ false) ⊎ (get t.artifacts k ≡ some a))
  publish_sole_current k keyed = (
    rw artifacts_after (get-publish s.artifacts a a.artifact_id ∙ rw eq_refl),
    sole k (get t.artifacts k) keyed refl,
  )

  -- The publication of a deliverable does not change the record of another file that stands under
  -- another id.
  pub publish_keeps_others :
      (k : String) (b : ArtifactRecord)
      → get s.artifacts k ≡ some b
      → k ≢ a.artifact_id
      → ¬ (SameFile b a)
      → get t.artifacts k ≡ some b
  publish_keeps_others k b g ne other = rw artifacts_after (other_kept s.artifacts a b k g ne other)

-- `artifacts.staled` makes the current artifacts among those it names stale, and no other artifact
-- changes; the state's indicators are then the old and the new ones.
pub staled_exactly :
    (s t : ProjectReducerState) (e : ProjectEvent) (ids indicators : List String) (k x : String)
    → e.content ≡ artifacts_staled ids indicators
    → reduce_project_event (some s) e ≡ ok t
    → (get t.artifacts k
        ≡ (if includes k ids then map_option make_stale (get s.artifacts k) else get s.artifacts k))
      × (includes x t.stale_indicators ≡ includes x (s.stale_indicators ++ indicators))
unfolding apply_event
staled_exactly s t e ids indicators k x c h =
    let made = sym (ap (apply_event s e.time) c) ∙ sym (reduce-apply s e) ∙ h in
    (
      ap (λ (x : ProjectReducerState). get x.artifacts k) (sym (ok-injective made))
          ∙ get-stale_all s.artifacts ids k,
      ap (λ (y : ProjectReducerState). includes x y.stale_indicators) (sym (ok-injective made))
          ∙ (includes-sort_strings x _ ∙ includes-unique x _),
    )

-- The rollback of an upload takes its artifact away, and nothing else.
pub rolled_back_exactly :
    (s t : ProjectReducerState) (e : ProjectEvent) (k attachment digest workspace j : String)
    → e.content ≡ artifact_upload_rolled_back k attachment digest workspace
    → reduce_project_event (some s) e ≡ ok t
    → (get t.artifacts j ≡ (if k == j then none else get s.artifacts j))
      × (t ≡ record s { artifacts = t.artifacts })
unfolding apply_event
rolled_back_exactly s t e k attachment digest workspace j c h =
    go (get s.artifacts k) refl (sym (ap (apply_event s e.time) c) ∙ sym (reduce-apply s e) ∙ h)
  where
    go :
        (o : Option ArtifactRecord)
        → get s.artifacts k ≡ o
        → ok (remove_found s k o) ≡ ok t
        → (get t.artifacts j ≡ (if k == j then none else get s.artifacts j))
          × (t ≡ record s { artifacts = t.artifacts })
    go none absent made = (ground (arith, eq_iff k j, ok-injective made), rw (← ok-injective made))
    go (some a) present made = (
      ap (λ (x : ProjectReducerState). get x.artifacts j) (sym (ok-injective made))
          ∙ get-remove s.artifacts k j,
      rw (← ok-injective made),
    )
