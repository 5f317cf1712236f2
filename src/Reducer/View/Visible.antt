-- ===== src/Reducer/View/Visible.antt =====
-- Which artifacts a snapshot of a project shows (reducer.ts).
use mathlib.Core.List.{Memᴰ}
use mathlib.Core.List.Memᴰ
use georesearch_dsh.Prelude.{
  String, ◌≡◌, ap, ◌∙◌, ◌↔◌, Bool, true, false, none, some, List, [], ◌∷◌, map, filter_if,
  Bool-cases, inl, inr, ok, err, other_error, subst, Option-cases, ◌⊎◌,
}
use georesearch_dsh.Dict.{Dict, get, values}
use georesearch_dsh.Contracts.Artifact.{ArtifactRecord, ArtifactRef}
use georesearch_dsh.Contracts.Workspace.{WorkspaceBinding}
use georesearch_dsh.Contracts.State.{ProjectStateFile, ProjectSnapshot}
use georesearch_dsh.Reducer.View.{
  is_visible, ref_of, insert_artifact, sort_artifacts, visible_artifacts, snapshot_of,
  project_snapshot,
}

-- The artifact is on record, it is committed and not missing, and `r` refers to it.
abbrev pub IsShown : Dict ArtifactRecord → ArtifactRef → Type 0
IsShown m r = (a : ArtifactRecord) × Memᴰ a (values m) × (is_visible a ≡ true) × (ref_of a ≡ r)

-- Both members of the lists are the same.
abbrev SameMembers : List ArtifactRecord → List ArtifactRecord → Type 0
SameMembers xs ys = (a : ArtifactRecord) → Memᴰ a xs ↔ Memᴰ a ys

SameMembers-cons :
    (x : ArtifactRecord) (xs ys : List ArtifactRecord)
    → SameMembers xs ys
    → SameMembers (x ∷ xs) (x ∷ ys)
SameMembers-cons x xs ys h a = (forth, back)
  where
    forth : Memᴰ a (x ∷ xs) → Memᴰ a (x ∷ ys)
    forth (Memᴰ.head e) = Memᴰ.head e
    forth (Memᴰ.tail m) = Memᴰ.tail ((h a).0 m)

    back : Memᴰ a (x ∷ ys) → Memᴰ a (x ∷ xs)
    back (Memᴰ.head e) = Memᴰ.head e
    back (Memᴰ.tail m) = Memᴰ.tail ((h a).1 m)

SameMembers-swap :
    (x y : ArtifactRecord) (xs : List ArtifactRecord) → SameMembers (x ∷ y ∷ xs) (y ∷ x ∷ xs)
SameMembers-swap x y xs a = (swap x y, swap y x)
  where
    swap : (u v : ArtifactRecord) → Memᴰ a (u ∷ v ∷ xs) → Memᴰ a (v ∷ u ∷ xs)
    swap u v (Memᴰ.head e) = Memᴰ.tail (Memᴰ.head e)
    swap u v (Memᴰ.tail (Memᴰ.head e)) = Memᴰ.head e
    swap u v (Memᴰ.tail (Memᴰ.tail m)) = Memᴰ.tail (Memᴰ.tail m)

SameMembers-trans :
    (xs ys zs : List ArtifactRecord) → SameMembers xs ys → SameMembers ys zs → SameMembers xs zs
SameMembers-trans xs ys zs h g a = (λ m. (g a).0 ((h a).0 m), λ m. (h a).1 ((g a).1 m))

SameMembers-filter_if :
    (xs : List ArtifactRecord) (a : ArtifactRecord)
    → Memᴰ a (filter_if is_visible xs) ↔ (Memᴰ a xs × (is_visible a ≡ true))
unfolding filter_if
SameMembers-filter_if [] a = (λ m. elim m [ ], λ m. elim m.0 [ ])
SameMembers-filter_if (x ∷ xs) a = elim (Bool-cases (is_visible x)) [
  | inl v ↦ rw v (shown v (SameMembers-filter_if xs a))
  | inr v ↦ rw v (hidden v (SameMembers-filter_if xs a))
]
  where
    shown :
        is_visible x ≡ true
        → Memᴰ a (filter_if is_visible xs) ↔ (Memᴰ a xs × (is_visible a ≡ true))
        → Memᴰ a (x ∷ filter_if is_visible xs) ↔ (Memᴰ a (x ∷ xs) × (is_visible a ≡ true))
    shown v h = (forth, back)
      where
        forth : Memᴰ a (x ∷ filter_if is_visible xs) → Memᴰ a (x ∷ xs) × (is_visible a ≡ true)
        forth (Memᴰ.head e) = (Memᴰ.head e, ap is_visible e ∙ v)
        forth (Memᴰ.tail m) = (Memᴰ.tail (h.0 m).0, (h.0 m).1)

        back : Memᴰ a (x ∷ xs) × (is_visible a ≡ true) → Memᴰ a (x ∷ filter_if is_visible xs)
        back (Memᴰ.head e, w) = Memᴰ.head e
        back (Memᴰ.tail m, w) = Memᴰ.tail (h.1 (m, w))

    hidden :
        is_visible x ≡ false
        → Memᴰ a (filter_if is_visible xs) ↔ (Memᴰ a xs × (is_visible a ≡ true))
        → Memᴰ a (filter_if is_visible xs) ↔ (Memᴰ a (x ∷ xs) × (is_visible a ≡ true))
    hidden v h = (λ m. (Memᴰ.tail (h.0 m).0, (h.0 m).1), back)
      where
        back : Memᴰ a (x ∷ xs) × (is_visible a ≡ true) → Memᴰ a (filter_if is_visible xs)
        back (Memᴰ.head e, w) = cc (v, ap is_visible e, w)
        back (Memᴰ.tail m, w) = h.1 (m, w)

module _ (locale_le : String → String → Bool) where
  SameMembers-insert_artifact :
      (a : ArtifactRecord) (bs : List ArtifactRecord)
      → SameMembers (insert_artifact locale_le a bs) (a ∷ bs)
  unfolding insert_artifact
  SameMembers-insert_artifact a [] = λ b. (λ m. m, λ m. m)
  SameMembers-insert_artifact a (c ∷ cs) =
      elim (Bool-cases (locale_le a.artifact_id c.artifact_id)) [
        | inl le ↦ rw le (λ b. (λ m. m, λ m. m))
        | inr gt ↦ rw gt (
            SameMembers-trans _ (c ∷ a ∷ cs) _
              (SameMembers-cons c _ (a ∷ cs) (SameMembers-insert_artifact a cs))
              (SameMembers-swap c a cs))
      ]

  SameMembers-sort_artifacts :
      (xs : List ArtifactRecord) → SameMembers (sort_artifacts locale_le xs) xs
  unfolding sort_artifacts
  SameMembers-sort_artifacts [] = λ a. (λ m. m, λ m. m)
  SameMembers-sort_artifacts (x ∷ xs) =
      SameMembers-trans _ (x ∷ sort_artifacts locale_le xs) _
        (SameMembers-insert_artifact x (sort_artifacts locale_le xs))
        (SameMembers-cons x _ xs (SameMembers-sort_artifacts xs))

  visible_artifacts-IsShown :
      (m : Dict ArtifactRecord) (r : ArtifactRef)
      → Memᴰ r (visible_artifacts locale_le m) ↔ IsShown m r
  unfolding visible_artifacts
  visible_artifacts-IsShown m r = (forth, back)
    where
      shown : List ArtifactRecord
      shown = filter_if is_visible (values m)

      forth : Memᴰ r (map ref_of (sort_artifacts locale_le shown)) → IsShown m r
      forth h =
          let (a, i, e) = Memᴰ.of_map ref_of (sort_artifacts locale_le shown) h in
          let (j, v) =
            (SameMembers-filter_if (values m) a).0 ((SameMembers-sort_artifacts shown a).0 i) in
          (a, j, v, e)

      back : IsShown m r → Memᴰ r (map ref_of (sort_artifacts locale_le shown))
      back (a, i, v, e) =
          let j =
            (SameMembers-sort_artifacts shown a).1
              ((SameMembers-filter_if (values m) a).1 (i, v)) in
          subst (λ x. Memᴰ x (map ref_of (sort_artifacts locale_le shown))) e (Memᴰ.map ref_of j)

  -- A snapshot for a workspace is taken if and only if the workspace is bound to the project. It
  -- then shows a reference exactly if it refers to an artifact on record that is committed and not
  -- missing, in whatever order the host's locale sorts them.
  pub project_snapshot-IsShown :
      (f : ProjectStateFile) (workspace_id : String)
      → ((get f.state.workspace_bindings workspace_id ≡ none)
          × (project_snapshot locale_le f workspace_id ≡ err other_error))
        ⊎ ((w : WorkspaceBinding) × (v : ProjectSnapshot) × (get f.state.workspace_bindings
                workspace_id
              ≡ some w)
            × (project_snapshot locale_le f workspace_id ≡ ok v)
            × ((r : ArtifactRef) → Memᴰ r v.visible_artifacts ↔ IsShown f.state.artifacts r))
  unfolding project_snapshot
  project_snapshot-IsShown f workspace_id =
      elim (Option-cases (get f.state.workspace_bindings workspace_id)) [
        | inl n ↦ inl (n, rw n)
        | inr (w, g) ↦ inr (
          w,
          snapshot_of locale_le f workspace_id,
          g,
          rw g,
          visible_artifacts-IsShown f.state.artifacts,
        )
      ]
