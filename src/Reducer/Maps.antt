-- ===== src/Reducer/Maps.antt =====
-- The updates of single maps of the state (reducer.ts).
use georesearch_dsh.Prelude.{
  String, Bool, true, false, ◌&&◌, not, Option, none, some, List, [], ◌∷◌, ◌==◌, if◌then◌else◌,
}
use georesearch_dsh.Dict.{Dict, get, put, map_values}
use georesearch_dsh.Contracts.Artifact.{ArtifactRecord, ArtifactValidity}
use georesearch_dsh.Contracts.Evidence.{EvidenceRecord, ReviewStatus}
use georesearch_dsh.Contracts.Reproduction.{ReproductionReport}
use georesearch_dsh.Contracts.Dataset.{Overall}
use georesearch_dsh.Contracts.Experiment.{ResultRecord, ValidationStatus}
use georesearch_dsh.Contracts.Validation.{
  ValidationSubjectRef, ValidationSubjectKind, Recommendation,
}

-- `for (const v of vs) m[key(v)] = v`
unfoldable pub put_all {ℓ} : {V : Type ℓ} → (V → String) → Dict V → List V → Dict V
put_all key m [] = m
put_all key m (v ∷ vs) = put_all key (put m (key v) v) vs

abbrev pub is_current : ArtifactValidity → Bool
is_current ArtifactValidity.current = true
is_current ArtifactValidity.stale = false
is_current ArtifactValidity.superseded = false

-- `a === b` for optional strings
abbrev pub same_path : Option String → Option String → Bool
same_path none none = true
same_path (some a) (some b) = a == b
same_path _ _ = false

-- What `deliverable.published` makes of an artifact that is on record.
unfoldable pub supersede : ArtifactRecord → ArtifactRecord → ArtifactRecord
supersede artifact other =
    if other.workspace_id == artifact.workspace_id
      && same_path other.source_relative_path artifact.source_relative_path
      && not (other.artifact_id == artifact.artifact_id)
      && is_current other.validity
    then record other { validity = ArtifactValidity.superseded }
    else other

unfoldable pub publish : Dict ArtifactRecord → ArtifactRecord → Dict ArtifactRecord
publish artifacts artifact =
    put (map_values (supersede artifact) artifacts) artifact.artifact_id artifact

-- One round of the loop of `artifacts.staled`.
abbrev pub stale_found : Dict ArtifactRecord → String → Option ArtifactRecord → Dict ArtifactRecord
stale_found artifacts k none = artifacts
stale_found artifacts k (some a) =
    if is_current a.validity
    then put artifacts k (record a { validity = ArtifactValidity.stale })
    else artifacts

unfoldable pub stale_all : Dict ArtifactRecord → List String → Dict ArtifactRecord
stale_all artifacts [] = artifacts
stale_all artifacts (k ∷ ks) = stale_all (stale_found artifacts k (get artifacts k)) ks

-- `validationReport.overall` as the status of a result
abbrev pub status_of : Overall → ValidationStatus
status_of Overall.passed = ValidationStatus.passed
status_of Overall.failed = ValidationStatus.failed
status_of Overall.blocked = ValidationStatus.blocked

abbrev pub is_result : ValidationSubjectKind → Bool
is_result ValidationSubjectKind.result = true
is_result _ = false

abbrev pub is_evidence : ValidationSubjectKind → Bool
is_evidence ValidationSubjectKind.evidence = true
is_evidence _ = false

abbrev pub is_reproduction_report : ValidationSubjectKind → Bool
is_reproduction_report ValidationSubjectKind.reproduction_report = true
is_reproduction_report _ = false

-- `if (m[subject.subjectId]?.digest === subject.digest) m[subject.subjectId] = mark(...)`
module _ {V : Type 0} (digest : V → String) (mark : V → V) where
  abbrev pub mark_found : Dict V → ValidationSubjectRef → Option V → Dict V
  mark_found m subject none = m
  mark_found m subject (some v) =
      if digest v == subject.digest then put m subject.subject_id (mark v) else m

  -- The loop over the subjects, for those of one kind.
  unfoldable pub mark_all :
      (ValidationSubjectKind → Bool) → Dict V → List ValidationSubjectRef → Dict V
  mark_all wanted m [] = m
  mark_all wanted m (s ∷ ss) =
      mark_all wanted (if wanted s.kind then mark_found m s (get m s.subject_id) else m) ss

abbrev pub set_validation_status : ValidationStatus → ResultRecord → ResultRecord
set_validation_status status r = record r { validation_status = status }

abbrev pub set_evidence_review : ReviewStatus → EvidenceRecord → EvidenceRecord
set_evidence_review status r = record r { review_status = status }

abbrev pub set_report_review : ReviewStatus → ReproductionReport → ReproductionReport
set_report_review status r = record r { review_status = status }

abbrev pub review_status_of : Recommendation → ReviewStatus
review_status_of Recommendation.accept = ReviewStatus.accepted
review_status_of Recommendation.reject = ReviewStatus.rejected
review_status_of Recommendation.revise = ReviewStatus.needs_review
