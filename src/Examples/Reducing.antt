-- ===== src/Examples/Reducing.antt =====
-- The theorems on the reducer at small projects.
use mathlib.Core.List.{Memᴰ}
use georesearch_dsh.Prelude.{
  String, ◌≡◌, ◌≢◌, refl, sym, ap, ◌∙◌, any, true, none, some, List, [], ◌∷◌, eq_iff, ◌↔◌, includes,
  sort_strings, unique,
}
use georesearch_dsh.Dict.{get, put, remove, values}
use georesearch_dsh.Contracts.Artifact.{ArtifactRecord, ArtifactValidity}
use georesearch_dsh.Contracts.State.{ProjectReducerState}
use georesearch_dsh.Contracts.Event.{
  ProjectEvent, project_created, artifact_committed, deliverable_published, artifacts_staled,
  artifact_upload_rolled_back,
}
use georesearch_dsh.Reducer.{reduce_project_event}
use georesearch_dsh.Reducer.Apply.{apply_event}
use georesearch_dsh.Reducer.Maps.{stale_all}
use georesearch_dsh.Reducer.Keyed.{IsKeyed, reduce-IsKeyed}
use georesearch_dsh.Reducer.Preserved.{brought, IsPreserved, reduce-IsPreserved}
use georesearch_dsh.Prelude.{◌⊎◌, false}
use georesearch_dsh.Reducer.Artifacts.{
  is_current_of, publish_sole_current, staled_exactly, rolled_back_exactly,
}
use georesearch_dsh.Reducer.Downstream.{downstream_artifact_ids, rounds, round, visit, is_reached}
use georesearch_dsh.Reducer.Downstream.Closure.{IsDownstream, HasUniqueIds}
use georesearch_dsh.Reducer.Downstream.Exact.{downstream_artifact_ids-IsDownstream}
use georesearch_dsh.Examples.Data.{
  binding, workspace, artifact, event_of, created, or_created, digest_a, digest_b,
}

abbrev id_of : ArtifactRecord → String
id_of a = a.artifact_id

abbrev first : ArtifactRecord
first = artifact "a1" digest_a []

abbrev second : ArtifactRecord
second = artifact "a2" digest_b (digest_a ∷ [])

abbrev creation : ProjectEvent
creation = event_of (project_created binding workspace)

abbrev commit_first : ProjectEvent
commit_first = event_of (artifact_committed first)

abbrev with_first : ProjectReducerState
unfolding reduce_project_event apply_event
with_first = or_created (reduce_project_event (some created) commit_first)

created-IsKeyed : IsKeyed created
unfolding reduce_project_event
created-IsKeyed = reduce-IsKeyed none created creation tt refl

reduce-IsKeyed_example : IsKeyed with_first
unfolding reduce_project_event apply_event
reduce-IsKeyed_example = reduce-IsKeyed (some created) with_first commit_first created-IsKeyed refl

with_first-IsKeyed : IsKeyed with_first
unfolding reduce_project_event apply_event
with_first-IsKeyed = reduce-IsKeyed (some created) with_first commit_first created-IsKeyed refl

reduce-IsPreserved_example : IsPreserved (brought commit_first.content) created with_first
unfolding reduce_project_event apply_event
reduce-IsPreserved_example = reduce-IsPreserved created with_first commit_first refl refl

abbrev publication : ProjectEvent
publication = event_of (deliverable_published second)

abbrev published : ProjectReducerState
unfolding reduce_project_event apply_event
published = or_created (reduce_project_event (some with_first) publication)

publish_sole_current_example :
    (get published.artifacts "a2" ≡ some second)
    × ((is_current_of second (get published.artifacts "a1") ≡ false)
        ⊎ (get published.artifacts "a1" ≡ some second))
unfolding reduce_project_event apply_event
publish_sole_current_example =
    publish_sole_current with_first published publication second refl refl "a1" with_first-IsKeyed

abbrev elsewhere : ArtifactRecord
elsewhere = record first { artifact_id = "a3"; source_relative_path = some "other.txt" }

abbrev with_elsewhere : ProjectReducerState
with_elsewhere = record created { artifacts = ("a3", elsewhere) ∷ ("a1", first) ∷ [] }

abbrev staling : ProjectEvent
staling = event_of (artifacts_staled ("a1" ∷ "a9" ∷ []) ("drift" ∷ []))

abbrev staled : ProjectReducerState
unfolding reduce_project_event apply_event
staled = or_created (reduce_project_event (some with_elsewhere) staling)

staled_exactly_example :
    (get staled.artifacts "a1" ≡ some (record first { validity = ArtifactValidity.stale }))
    × (includes "drift" staled.stale_indicators ≡ true)
unfolding reduce_project_event apply_event get put stale_all includes sort_strings unique
staled_exactly_example =
    staled_exactly with_elsewhere staled staling ("a1" ∷ "a9" ∷ []) ("drift" ∷ []) "a1" "drift" refl
      refl

abbrev rollback : ProjectEvent
rollback = event_of (artifact_upload_rolled_back "a1" "u1" digest_a "w1")

abbrev rolled_back : ProjectReducerState
unfolding reduce_project_event apply_event get remove
rolled_back = or_created (reduce_project_event (some with_elsewhere) rollback)

rolled_back_exactly_example :
    (get rolled_back.artifacts "a1" ≡ none)
    × (rolled_back ≡ record with_elsewhere { artifacts = rolled_back.artifacts })
unfolding reduce_project_event apply_event get remove
rolled_back_exactly_example =
    rolled_back_exactly with_elsewhere rolled_back rollback "a1" "u1" digest_a "w1" "a1" refl refl

abbrev lineage : List (String × ArtifactRecord)
lineage = ("a1", first) ∷ ("a2", second) ∷ []

lineage-HasUniqueIds : HasUniqueIds (values lineage)
unfolding values
lineage-HasUniqueIds = record { same = same }
  where
    a1≢a2 : ◌≢◌ {A = String} "a1" "a2"
    a1≢a2 e = cc ((eq_iff "a1" "a2").1 e)

    same :
        (a b : ArtifactRecord)
        → Memᴰ a (first ∷ second ∷ [])
        → Memᴰ b (first ∷ second ∷ [])
        → a.artifact_id ≡ b.artifact_id
        → a ≡ b
    same a b (Memᴰ.head p) (Memᴰ.head q) e = p ∙ sym q
    same a b (Memᴰ.head p) (Memᴰ.tail (Memᴰ.head q)) e =
        absurd (a1≢a2 (ap id_of (sym p) ∙ e ∙ ap id_of q))
    same a b (Memᴰ.tail (Memᴰ.head p)) (Memᴰ.head q) e =
        absurd (a1≢a2 (ap id_of (sym q) ∙ sym e ∙ ap id_of p))
    same a b (Memᴰ.tail (Memᴰ.head p)) (Memᴰ.tail (Memᴰ.head q)) e = p ∙ sym q
    same a b (Memᴰ.tail (Memᴰ.tail m)) n e = elim m [ ]
    same a b m (Memᴰ.tail (Memᴰ.tail n)) e = elim n [ ]

-- Both artifacts depend on a change of what the first was made of; here the second, on the first.
downstream_artifact_ids-IsDownstream_example :
    (ids : List String) × (downstream_artifact_ids lineage (digest_a ∷ []) ≡ some ids)
    × ((k : String) → (includes k ids ≡ true) ↔ IsDownstream (values lineage) (digest_a ∷ []) k)
downstream_artifact_ids-IsDownstream_example =
    downstream_artifact_ids-IsDownstream lineage (digest_a ∷ []) lineage-HasUniqueIds

downstream_test : downstream_artifact_ids lineage (digest_a ∷ []) ≡ some ("a2" ∷ [])
unfolding downstream_artifact_ids values sort_strings includes rounds round visit is_reached any
downstream_test = refl
