-- ===== src/Reducer/Downstream/Closure.antt =====
-- `downstreamArtifactIds` computes the artifacts that derive from the changed digests, and ends.
use mathlib.Core.List.{Memᴰ}
use georesearch_dsh.Prelude.{
  String, ◌≡◌, refl, sym, subst, inl, inr, Bool, true, List, [], ◌∷◌, arith, includes, any, ◌==◌,
  eq_iff, eq_refl, Bool-cases,
}
use georesearch_dsh.Contracts.Artifact.{ArtifactRecord}
use georesearch_dsh.Reducer.Downstream.{Spread, is_reached, visit, round}

-- The digests that changed inputs reach: the changed ones, and that of every artifact with a reached
-- input.
pub data Reached (xs : List ArtifactRecord) (seeds : List String) : String → Type 0 where
  seed : (d : String) → includes d seeds ≡ true → Reached xs seeds d
  derived :
      (a : ArtifactRecord) (d : String)
      → Memᴰ a xs
      → includes d a.lineage.input_digests ≡ true
      → Reached xs seeds d
      → Reached xs seeds a.digest

-- The id of an artifact that has a reached input.
pub record IsDownstream (xs : List ArtifactRecord) (seeds : List String) (k : String) : Type 0 where
  pub artifact : ArtifactRecord
  pub listed : Memᴰ artifact xs
  pub named : artifact.artifact_id ≡ k
  pub input : String
  pub consumed : includes input artifact.lineage.input_digests ≡ true
  pub reached : Reached xs seeds input

-- No two artifacts share an id.
pub record HasUniqueIds (xs : List ArtifactRecord) : Type 0 where
  pub same : (a b : ArtifactRecord) → Memᴰ a xs → Memᴰ b xs → a.artifact_id ≡ b.artifact_id → a ≡ b

is_reached_cases :
    (frontier ds : List String)
    → any (λ d. includes d frontier) ds ≡ true
    → (d : String) × (includes d ds ≡ true) × (includes d frontier ≡ true)
unfolding any includes
is_reached_cases frontier [] h = cc
is_reached_cases frontier (d ∷ ds) h = elim (Bool-cases (includes d frontier)) [
  | inl e ↦ (d, rw eq_refl, e)
  | inr e ↦ let (d', p, q) = is_reached_cases frontier ds (rw e at h) in (d', ground arith, q)
]

is_reached_intro :
    (frontier ds : List String) (d : String)
    → includes d ds ≡ true
    → includes d frontier ≡ true
    → any (λ x. includes x frontier) ds ≡ true
unfolding any includes
is_reached_intro frontier [] d h e = cc
is_reached_intro frontier (x ∷ ds) d h e =
    ground (arith, eq_iff d x, is_reached_intro frontier ds d)

pub is_reached_of :
    (frontier : List String) (a : ArtifactRecord) (d : String)
    → includes d a.lineage.input_digests ≡ true
    → includes d frontier ≡ true
    → is_reached frontier a ≡ true
unfolding is_reached
is_reached_of frontier a d = is_reached_intro frontier a.lineage.input_digests d

module _ (xs : List ArtifactRecord) (seeds : List String) where
  pub record IsSound (s : Spread) : Type 0 where
    pub ids : (k : String) → includes k s.stale ≡ true → IsDownstream xs seeds k
    pub digests : (d : String) → includes d s.frontier ≡ true → Reached xs seeds d

  IsSound-add :
      (s : Spread) (a : ArtifactRecord) (b : Bool)
      → Memᴰ a xs
      → is_reached s.frontier a ≡ true
      → IsSound s
      → IsSound (record {
        stale = a.artifact_id ∷ s.stale;
        frontier = a.digest ∷ s.frontier;
        changed = b;
      })
  unfolding is_reached includes
  IsSound-add s a b m r h =
      let (d, p, q) = is_reached_cases s.frontier a.lineage.input_digests r in
      record {
        ids = λ k e. elim (Bool-cases (k == a.artifact_id)) [
          | inl f ↦ record {
            artifact = a;
            listed = m;
            named = sym ((eq_iff _ _).0 f);
            input = d;
            consumed = p;
            reached = h.digests d q;
          }
          | inr f ↦ h.ids k (rw f at e)
        ];
        digests = λ k e. elim (Bool-cases (k == a.digest)) [
          | inl f ↦
              subst (Reached xs seeds) (sym ((eq_iff _ _).0 f)) (derived a d m p (h.digests d q))
          | inr f ↦ h.digests k (rw f at e)
        ];
      }

  IsSound-visit : (s : Spread) (a : ArtifactRecord) → Memᴰ a xs → IsSound s → IsSound (visit s a)
  unfolding visit
  IsSound-visit s a m h = elim (Bool-cases (includes a.artifact_id s.stale)) [
    | inl e ↦ rw e h
    | inr e ↦ elim (Bool-cases (is_reached s.frontier a)) [
      | inl r ↦ rw (e, r) (IsSound-add s a true m r h)
      | inr r ↦ rw (e, r) h
    ]
  ]

  pub IsSound-round :
      (ys : List ArtifactRecord) (s : Spread)
      → ((a : ArtifactRecord) → Memᴰ a ys → Memᴰ a xs)
      → IsSound s
      → IsSound (round ys s)
  unfolding round
  IsSound-round [] s sub h = h
  IsSound-round (y ∷ ys) s sub h =
      IsSound-round ys (visit s y) (λ a m. sub a (Memᴰ.tail m))
        (IsSound-visit s y (sub y (Memᴰ.head refl)) h)
