-- ===== src/Service/Guards.antt =====
-- Tests and checks that several guarded commits share.
use Prim.Native.String as Text
use georesearch_dsh.Prelude.{
  ℕ, String, Bool, true, false, ◌&&◌, Option, none, some, List, [], ◌∷◌, ◌==◌, nat_eq,
  if◌then◌else◌, Result, ok, err, Failure, geo_research_error, ◌>>=◌,
}
use georesearch_dsh.Dict.{get, or_empty}
use georesearch_dsh.Contracts.Json.{Sha256Digest}
use georesearch_dsh.Contracts.Artifact.{
  ArtifactRecord, ArtifactRef, ArtifactMaterialization, ArtifactIntegrity,
}
use georesearch_dsh.Contracts.Brief.{ResearchBrief}
use georesearch_dsh.Contracts.Validation.{ValidationSubjectRef, ValidationSubjectKind}
use georesearch_dsh.Contracts.State.{ProjectReducerState}
use georesearch_dsh.Reducer.Maps.{is_current}
use georesearch_dsh.Service.Host.{Host, Canonical, digest_json}

-- How a guard ends that does not throw: the record is on file already, or it is to be committed.
pub data Decision : Type 0 where
  keep write : Decision

-- `x !== undefined && test(x)`
abbrev pub holds {ℓ} : {A : Type ℓ} → (A → Bool) → Option A → Bool
holds test none = false
holds test (some a) = test a

-- `if (existing !== undefined) { if (!same(existing)) throw failure; return current }`
abbrev pub settle {ℓ} : {A : Type ℓ} → Option A → (A → Bool) → Failure → Result Decision
settle none same failure = ok Decision.write
settle (some existing) same failure = if same existing then ok Decision.keep else err failure

-- A loop whose body throws or does nothing.
unfoldable pub check_each {ℓ} : {A : Type ℓ} → (A → Result (Unit {0})) → List A → Result (Unit {0})
check_each check [] = ok tt
check_each check (x ∷ xs) = check x >>= λ u. check_each check xs

-- `xs.sort((left, right) => left.key.localeCompare(right.key))`, which is stable.
module _ {ℓ} {A : Type ℓ} (le : String → String → Bool) (key : A → String) where
  abbrev pub insert_by : A → List A → List A
  insert_by a [] = a ∷ []
  insert_by a (x ∷ xs) =
      let rest = insert_by a xs in if le (key a) (key x) then a ∷ x ∷ xs else x ∷ rest

  unfoldable pub sort_by : List A → List A
  sort_by [] = []
  sort_by (x ∷ xs) = insert_by x (sort_by xs)

-- `JSON.stringify(xs) === JSON.stringify(ys)` on arrays of strings
abbrev pub same_strings : List String → List String → Bool
same_strings [] [] = true
same_strings (x ∷ xs) (y ∷ ys) = x == y && same_strings xs ys
same_strings _ _ = false

-- `a === b` on strings that may be null
abbrev pub same_nullable : Option String → Option String → Bool
same_nullable none none = true
same_nullable (some a) (some b) = a == b
same_nullable _ _ = false

abbrev pub is_committed : ArtifactMaterialization → Bool
is_committed ArtifactMaterialization.committed = true
is_committed _ = false

abbrev pub is_verified : ArtifactIntegrity → Bool
is_verified ArtifactIntegrity.verified = true
is_verified _ = false

-- The artifact may be relied on.
abbrev pub is_sound : ArtifactRecord → Bool
is_sound a = is_committed a.materialization && is_verified a.integrity && is_current a.validity

-- The condition of `assertCurrentArtifact`
unfoldable pub is_current_artifact : ProjectReducerState → ArtifactRef → Bool
is_current_artifact s reference =
    holds (λ a. a.digest == reference.digest && a.kind == reference.kind && is_sound a)
      (get s.artifacts reference.artifact_id)

abbrev pub artifact_integrity_failure : Failure
artifact_integrity_failure = geo_research_error "ARTIFACT_INTEGRITY_FAILURE"

-- `assertCurrentArtifact`
unfoldable pub assert_current_artifact : ProjectReducerState → ArtifactRef → Result (Unit {0})
unfolding is_current_artifact
assert_current_artifact s reference =
    if is_current_artifact s reference then ok tt else err artifact_integrity_failure

abbrev pub binding_mismatch : Failure
binding_mismatch = geo_research_error "PROJECT_BINDING_MISMATCH"

-- `assertCurrentBinding`
unfoldable pub assert_current_binding : ProjectReducerState → String → ℕ → Result (Unit {0})
assert_current_binding s workspace_id version =
    if holds (λ b. nat_eq b.binding_version version) (get s.workspace_bindings workspace_id)
    then ok tt
    else err binding_mismatch

abbrev brief_digest : Option ResearchBrief → String → Option Sha256Digest
brief_digest none brief_id = none
brief_digest (some brief) brief_id = if brief.brief_id == brief_id then some brief.digest else none

-- `m?.[k]?.digest`
abbrev pub digest_of {ℓ} : {A : Type ℓ} → (A → Sha256Digest) → Option A → Option Sha256Digest
digest_of digest none = none
digest_of digest (some a) = some (digest a)

-- `currentSubjectDigest`
unfoldable pub current_subject_digest :
    Host → ProjectReducerState → ValidationSubjectRef → Option Sha256Digest
current_subject_digest h s subject = elim subject.kind [
  | ValidationSubjectKind.geodata_report ↦
      digest_of (λ r. r.digest) (get (or_empty s.geodata_reports) subject.subject_id)
  | ValidationSubjectKind.dataset_manifest ↦
      digest_of (λ r. r.digest) (get (or_empty s.dataset_manifests) subject.subject_id)
  | ValidationSubjectKind.experiment_spec ↦
      digest_of (λ r. r.digest) (get (or_empty s.experiment_specs) subject.subject_id)
  | ValidationSubjectKind.run ↦
      digest_of (λ r. digest_json h (Canonical.run r)) (get s.runs subject.subject_id)
  | ValidationSubjectKind.result ↦
      digest_of (λ r. r.digest) (get (or_empty s.results) subject.subject_id)
  | ValidationSubjectKind.evidence ↦
      digest_of (λ r. r.digest) (get (or_empty s.evidence) subject.subject_id)
  | ValidationSubjectKind.reproduction_report ↦
      digest_of (λ r. r.digest) (get (or_empty s.reproduction_reports) subject.subject_id)
  | ValidationSubjectKind.claim ↦
      digest_of (λ r. r.digest) (get (or_empty s.claims) subject.subject_id)
  | ValidationSubjectKind.research_brief ↦ brief_digest s.research_brief subject.subject_id
  | ValidationSubjectKind.manuscript ↦
      digest_of (λ r. r.digest) (get (or_empty s.manuscripts) subject.subject_id)
]

-- `currentSubjectDigest(state, subject) === subject.digest`
abbrev pub is_current_subject : Host → ProjectReducerState → ValidationSubjectRef → Bool
is_current_subject h s subject =
    same_nullable (current_subject_digest h s subject) (some subject.digest)

-- `${kind}:${id}:${digest}`
abbrev pub key_of : String → String → Sha256Digest → String
key_of kind k digest = Text.◌++◌ kind (Text.◌++◌ ":" (Text.◌++◌ k (Text.◌++◌ ":" digest)))

abbrev kind_text : ValidationSubjectKind → String
kind_text ValidationSubjectKind.geodata_report = "geodata-report"
kind_text ValidationSubjectKind.dataset_manifest = "dataset-manifest"
kind_text ValidationSubjectKind.experiment_spec = "experiment-spec"
kind_text ValidationSubjectKind.run = "run"
kind_text ValidationSubjectKind.result = "result"
kind_text ValidationSubjectKind.evidence = "evidence"
kind_text ValidationSubjectKind.reproduction_report = "reproduction-report"
kind_text ValidationSubjectKind.claim = "claim"
kind_text ValidationSubjectKind.research_brief = "research-brief"
kind_text ValidationSubjectKind.manuscript = "manuscript"

-- `validationSubjectKey`
unfoldable pub validation_subject_key : ValidationSubjectRef → String
validation_subject_key s = key_of (kind_text s.kind) s.subject_id s.digest
