-- ===== src/Reducer/Downstream.antt =====
-- `downstreamArtifactIds`: the artifacts that depend on changed inputs (reducer.ts). The sets `stale`
-- and `frontier` are the lists of what was added to them.
pub mod Closure
pub mod Ending
pub mod Exact
use georesearch_dsh.Prelude.{
  ℕ, zero, suc, String, Bool, true, false, Option, none, some, List, [], ◌∷◌, length, includes, any,
  sort_strings, unique, if◌then◌else◌,
}
use georesearch_dsh.Dict.{Dict, values}
use georesearch_dsh.Contracts.Artifact.{ArtifactRecord}

pub record Spread : Type 0 where
  pub stale : List String
  pub frontier : List String
  pub changed : Bool

-- `artifact.lineage.inputDigests.some(digest => frontier.has(digest))`
unfoldable pub is_reached : List String → ArtifactRecord → Bool
is_reached frontier a = any (λ d. includes d frontier) a.lineage.input_digests

-- The body of the `for` loop.
unfoldable pub visit : Spread → ArtifactRecord → Spread
visit s a =
    if includes a.artifact_id s.stale
    then s
    else if is_reached s.frontier a
    then record {
      stale = a.artifact_id ∷ s.stale;
      frontier = a.digest ∷ s.frontier;
      changed = true;
    }
    else s

unfoldable pub round : List ArtifactRecord → Spread → Spread
round [] s = s
round (a ∷ rest) s = round rest (visit s a)

-- `while (changed) { changed = false; for (...) ... }`
unfoldable pub rounds : ℕ → List ArtifactRecord → Spread → Option Spread
rounds zero xs s = none
rounds (suc fuel) xs s =
    let s' = round xs (record s { changed = false }) in
    elim s.changed [ true ↦ rounds fuel xs s' | false ↦ some s ]

abbrev pub sorted_stale : Option Spread → Option (List String)
sorted_stale none = none
sorted_stale (some s) = some (sort_strings s.stale)

-- Each round but the last adds an id, so the number of artifacts bounds the rounds.
unfoldable pub downstream_artifact_ids : Dict ArtifactRecord → List String → Option (List String)
downstream_artifact_ids artifacts changed_digests = sorted_stale (
    rounds (suc (suc (length (values artifacts)))) (values artifacts)
      (record { stale = []; frontier = changed_digests; changed = true }))
