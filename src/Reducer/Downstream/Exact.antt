-- ===== src/Reducer/Downstream/Exact.antt =====
-- `downstreamArtifactIds` returns the downstream artifacts, and no others.
use mathlib.Core.List.{Memᴰ}
use georesearch_dsh.Prelude.{
  ℕ, zero, suc, String, ◌≡◌, refl, sym, subst, ap, ◌∙◌, ◌⊎◌, inl, inr, ◌↔◌, true, false, some, List,
  [], ◌∷◌, arith, length, includes, Bool-cases, sort_strings, includes-sort_strings, includes_head,
  includes_tail, includes_cases,
}
use georesearch_dsh.Dict.{Dict, values}
use georesearch_dsh.Contracts.Artifact.{ArtifactRecord}
use georesearch_dsh.Reducer.Downstream.{
  Spread, is_reached, visit, round, rounds, sorted_stale, downstream_artifact_ids,
}
use georesearch_dsh.Reducer.Downstream.Closure.{
  Reached, seed, derived, IsDownstream, HasUniqueIds, IsSound, IsSound-round, is_reached_of,
}
use georesearch_dsh.Reducer.Downstream.Ending.{fresh-le-length, rounds_total}

module _ (xs : List ArtifactRecord) (seeds : List String) where
  -- The frontier has the changed digests and those of the marked artifacts.
  record IsCovered (s : Spread) : Type 0 where
    seeds_in : (d : String) → includes d seeds ≡ true → includes d s.frontier ≡ true
    marked_in :
        (a : ArtifactRecord)
        → Memᴰ a xs
        → includes a.artifact_id s.stale ≡ true
        → includes a.digest s.frontier ≡ true

  IsCovered-visit :
      (s : Spread) (a : ArtifactRecord)
      → HasUniqueIds xs
      → Memᴰ a xs
      → IsCovered s
      → IsCovered (visit s a)
  unfolding visit
  IsCovered-visit s a u m h = elim (Bool-cases (includes a.artifact_id s.stale)) [
    | inl e ↦ rw e h
    | inr e ↦ elim (Bool-cases (is_reached s.frontier a)) [
      | inr r ↦ rw (e, r) h
      | inl r ↦ rw (e, r) (marked r)
    ]
  ]
    where
      marked :
          is_reached s.frontier a ≡ true
          → IsCovered (record {
            stale = a.artifact_id ∷ s.stale;
            frontier = a.digest ∷ s.frontier;
            changed = true;
          })
      marked r = record {
        seeds_in = λ d p. includes_tail _ _ _ (h.seeds_in d p);
        marked_in = λ b n p. elim (includes_cases _ _ _ p) [
          | inl f ↦ includes_head _ _ _ (ap (λ (x : ArtifactRecord). x.digest) (u.same b a n m f))
          | inr f ↦ includes_tail _ _ _ (h.marked_in b n f)
        ];
      }

  IsCovered-round :
      (ys : List ArtifactRecord) (s : Spread)
      → HasUniqueIds xs
      → ((a : ArtifactRecord) → Memᴰ a ys → Memᴰ a xs)
      → IsCovered s
      → IsCovered (round ys s)
  unfolding round
  IsCovered-round [] s u sub h = h
  IsCovered-round (y ∷ ys) s u sub h =
      IsCovered-round ys (visit s y) u (λ a m. sub a (Memᴰ.tail m))
        (IsCovered-visit s y u (sub y (Memᴰ.head refl)) h)

-- The artifact is marked, or none of its inputs is reached.
abbrev IsSettled : Spread → ArtifactRecord → Type 0
IsSettled s a = (includes a.artifact_id s.stale ≡ true) ⊎ (is_reached s.frontier a ≡ false)

visit-IsSettled :
    (s : Spread) (a : ArtifactRecord)
    → (visit s a).changed ≡ false
    → (visit s a ≡ s) × IsSettled s a
unfolding visit
visit-IsSettled s a h = elim (Bool-cases (includes a.artifact_id s.stale)) [
  | inl e ↦ (rw e, inl e)
  | inr e ↦ elim (Bool-cases (is_reached s.frontier a)) [
    | inr r ↦ (rw (e, r), inr r)
    | inl r ↦ cc (rw (e, r) at h)
  ]
]

-- A round that changes nothing finds every artifact settled.
round-IsSettled :
    (ys : List ArtifactRecord) (s : Spread)
    → (round ys s).changed ≡ false
    → (round ys s ≡ s) × ((a : ArtifactRecord) → Memᴰ a ys → IsSettled s a)
unfolding round
round-IsSettled [] s h = (refl, λ a m. elim m [ ])
round-IsSettled (y ∷ ys) s h =
    let (same, all) = round-IsSettled ys (visit s y) h in
    let (kept, here) = visit-IsSettled s y (ap (λ (x : Spread). x.changed) (sym same) ∙ h) in
    (
      same ∙ kept,
      λ a m. elim m [
        | Memᴰ.head e ↦ subst (IsSettled s) (sym e) here
        | Memᴰ.tail m' ↦ subst (λ x. IsSettled x a) kept (all a m')
      ],
    )

-- What holds before and after every round.
module _ (xs : List ArtifactRecord) (seeds : List String) where
  record IsGood (s : Spread) : Type 0 where
    sound : IsSound xs seeds s
    covered : IsCovered xs seeds s
    settled : s.changed ≡ false → (a : ArtifactRecord) → Memᴰ a xs → IsSettled s a

  IsGood-round :
      (s : Spread) → HasUniqueIds xs → IsGood s → IsGood (round xs (record s { changed = false }))
  IsGood-round s u h = record {
    sound =
        IsSound-round xs seeds xs s' (λ a m. m)
          (record { ids = h.sound.ids; digests = h.sound.digests });
    covered =
        IsCovered-round xs seeds xs s' u (λ a m. m)
          (record { seeds_in = h.covered.seeds_in; marked_in = h.covered.marked_in });
    settled = λ e a m.
        let (same, all) = round-IsSettled xs s' e in
        subst (λ x. IsSettled x a) (sym same) (all a m);
  }
    where
      s' : Spread
      s' = record s { changed = false }

  rounds-IsGood :
      (fuel : ℕ) (s t : Spread)
      → HasUniqueIds xs
      → IsGood s
      → rounds fuel xs s ≡ some t
      → IsGood t × (t.changed ≡ false)
  unfolding rounds
  rounds-IsGood zero s t u h e = cc
  rounds-IsGood (suc fuel) s t u h e = elim (Bool-cases s.changed) [
    | inl c ↦
        rounds-IsGood fuel (round xs (record s { changed = false })) t u (IsGood-round s u h)
          (rw c at e)
    | inr c ↦
        let same : s ≡ t = cc (c, e) in subst (λ x. IsGood x × (x.changed ≡ false)) same (h, c)
  ]

  -- With every artifact settled, what is reached is in the frontier.
  Reached-frontier :
      (t : Spread)
      → IsGood t
      → t.changed ≡ false
      → (d : String) → Reached xs seeds d
      → includes d t.frontier ≡ true
  Reached-frontier t h c d (seed _ p) = h.covered.seeds_in d p
  Reached-frontier t h c d (derived a i m p r) = elim (h.settled c a m) [
    | inl e ↦ h.covered.marked_in a m e
    | inr e ↦ cc (e, is_reached_of t.frontier a i p (Reached-frontier t h c i r))
  ]

  stale_exactly :
      (t : Spread)
      → IsGood t
      → t.changed ≡ false
      → (k : String) → (includes k t.stale ≡ true) ↔ IsDownstream xs seeds k
  stale_exactly t h c k = (
    h.sound.ids k,
    λ n. elim (h.settled c n.artifact n.listed) [
      | inl e ↦ ap (λ x. includes x t.stale) (sym n.named) ∙ e
      | inr e ↦ cc (
        e,
        is_reached_of t.frontier n.artifact n.input n.consumed
            (Reached-frontier t h c n.input n.reached),
      )
    ],
  )

start-IsGood :
    (xs : List ArtifactRecord) (seeds : List String)
    → IsGood xs seeds (record { stale = []; frontier = seeds; changed = true })
unfolding includes
start-IsGood xs seeds = record {
  sound = record { ids = λ k e. cc; digests = λ d e. seed d e };
  covered = record { seeds_in = λ d e. e; marked_in = λ a m e. cc };
  settled = λ e. cc;
}

-- If no two artifacts of the map share an id, `downstreamArtifactIds` ends, and its result has
-- exactly the ids of the artifacts with an input that the changed digests reach.
pub downstream_artifact_ids-IsDownstream :
    (artifacts : Dict ArtifactRecord) (changed_digests : List String)
    → HasUniqueIds (values artifacts)
    → (ids : List String) × (downstream_artifact_ids artifacts changed_digests ≡ some ids)
      × ((k : String) → (includes k ids ≡ true) ↔ IsDownstream (values artifacts) changed_digests k)
unfolding downstream_artifact_ids
downstream_artifact_ids-IsDownstream artifacts changed_digests u =
    let xs = values artifacts in
    let start : Spread = record { stale = []; frontier = changed_digests; changed = true } in
    let (t, e) =
      rounds_total (suc (suc (length xs))) xs start (omega (arith, fresh-le-length xs [])) in
    let (good, done) =
      rounds-IsGood xs changed_digests _ start t u (start-IsGood xs changed_digests) e in
    (
      sort_strings t.stale,
      ap sorted_stale e,
      λ k.
          subst (λ b. (b ≡ true) ↔ IsDownstream xs changed_digests k)
            (sym (includes-sort_strings k t.stale))
            (stale_exactly xs changed_digests t good done k),
    )
