-- ===== src/Reducer/Downstream/Ending.antt =====
-- The loop of `downstreamArtifactIds` ends: each round but the last marks a further artifact.
use mathlib.Core.List.{Memᴰ}
use georesearch_dsh.Prelude.{
  ℕ, zero, suc, ◌+◌, ◌≤◌, ◌<◌, String, ◌≡◌, refl, inl, inr, Bool, true, false, some, List, [], ◌∷◌,
  arith, ap, length, includes, eq_refl, Bool-cases, if◌then◌else◌,
}
use georesearch_dsh.Contracts.Artifact.{ArtifactRecord}
use georesearch_dsh.Reducer.Downstream.{Spread, visit, round, rounds}

-- How many of the artifacts are not marked.
pub fresh : List ArtifactRecord → List String → ℕ
fresh [] stale = 0
fresh (x ∷ xs) stale = (if includes x.artifact_id stale then 0 else 1) + fresh xs stale

pub fresh-le-length : (xs : List ArtifactRecord) (stale : List String) → fresh xs stale ≤ length xs
unfolding fresh
fresh-le-length [] stale = omega arith
fresh-le-length (x ∷ xs) stale = ground (arith, fresh-le-length xs stale)

fresh-cons :
    (xs : List ArtifactRecord) (k : String) (stale : List String)
    → fresh xs (k ∷ stale) ≤ fresh xs stale
unfolding fresh includes
fresh-cons [] k stale = omega arith
fresh-cons (x ∷ xs) k stale = ground (arith, fresh-cons xs k stale)

fresh-mark :
    (xs : List ArtifactRecord) (a : ArtifactRecord) (stale : List String)
    → Memᴰ a xs
    → includes a.artifact_id stale ≡ false
    → fresh xs (a.artifact_id ∷ stale) < fresh xs stale
unfolding fresh includes
fresh-mark [] a stale m h = elim m [ ]
fresh-mark (x ∷ xs) a stale (Memᴰ.head e) h =
    rw (← e) (ground (arith, eq_refl a.artifact_id, fresh-cons xs a.artifact_id stale))
fresh-mark (x ∷ xs) a stale (Memᴰ.tail m) h = ground (arith, fresh-mark xs a stale m h)

fresh-visit :
    (xs : List ArtifactRecord) (s : Spread) (a : ArtifactRecord)
    → Memᴰ a xs
    → (fresh xs (visit s a).stale ≤ fresh xs s.stale)
      × (s.changed ≡ false
          → (visit s a).changed ≡ true
          → fresh xs (visit s a).stale < fresh xs s.stale)
      × (s.changed ≡ true → (visit s a).changed ≡ true)
unfolding visit
fresh-visit xs s a m = ground (arith, fresh-mark xs a s.stale m)

pub fresh-round :
    (xs ys : List ArtifactRecord) (s : Spread)
    → ((a : ArtifactRecord) → Memᴰ a ys → Memᴰ a xs)
    → (fresh xs (round ys s).stale ≤ fresh xs s.stale)
      × (s.changed ≡ false
          → (round ys s).changed ≡ true
          → fresh xs (round ys s).stale < fresh xs s.stale)
unfolding round
fresh-round xs [] s sub = (omega arith, λ p q. cc)
fresh-round xs (y ∷ ys) s sub =
    let v = fresh-visit xs s y (sub y (Memᴰ.head refl)) in
    let r = fresh-round xs ys (visit s y) (λ a m. sub a (Memᴰ.tail m)) in
    (
      omega arith,
      λ p q. elim (Bool-cases (visit s y).changed) [
        | inl e ↦ omega (arith, v.1 p e)
        | inr e ↦ omega (arith, r.1 e q)
      ],
    )

abbrev pub one_if : Bool → ℕ
one_if true = 1
one_if false = 0

abbrev next_round : List ArtifactRecord → Spread → Spread
next_round xs s = round xs (record s { changed = false })

next_round_smaller :
    (fuel : ℕ) (xs : List ArtifactRecord) (s : Spread)
    → fresh xs s.stale < fuel
    → fresh xs (next_round xs s).stale + one_if (next_round xs s).changed < fuel
next_round_smaller fuel xs s h =
    let r = fresh-round xs xs (record s { changed = false }) (λ a m. m) in
    elim (Bool-cases (next_round xs s).changed) [
      | inl e ↦ omega (arith, r.1 refl e, ap one_if e)
      | inr e ↦ omega (arith, r.0, ap one_if e)
    ]

-- Fuel beyond the unmarked artifacts is enough.
pub rounds_total :
    (fuel : ℕ) (xs : List ArtifactRecord) (s : Spread)
    → fresh xs s.stale + one_if s.changed < fuel
    → (t : Spread) × (rounds fuel xs s ≡ some t)
unfolding rounds
rounds_total zero xs s h = absurd (omega arith)
rounds_total (suc fuel) xs s h = elim (Bool-cases s.changed) [
  | inr e ↦ (s, rw e)
  | inl e ↦ rw e (
      rounds_total fuel xs (next_round xs s)
        (next_round_smaller fuel xs s (omega (arith, ap one_if e))))
]
