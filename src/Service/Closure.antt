-- ===== src/Service/Closure.antt =====
-- `collectWritingInputs`: everything on record that a set of claims rests on.
use georesearch_dsh.Prelude.{
  String, Bool, not, Option, none, some, List, [], ◌∷◌, ◌++◌, ◌==◌, map, filter_if, sort_strings,
  unique, Result, ok, err, ◌>>=◌, Failure, geo_research_error,
}
use georesearch_dsh.Dict.{Dict, get, values, or_empty}
use georesearch_dsh.Contracts.Artifact.{ArtifactRef}
use georesearch_dsh.Contracts.Run.{RunRecord}
use georesearch_dsh.Contracts.Evidence.{SourceRecord, EvidenceRecord}
use georesearch_dsh.Contracts.Experiment.{ExperimentSpec, ResultRecord}
use georesearch_dsh.Contracts.Validation.{ValidationReport}
use georesearch_dsh.Contracts.Claim.{ClaimRecord, ClaimCalculation}
use georesearch_dsh.Contracts.State.{ProjectReducerState}
use georesearch_dsh.Reducer.Maps.{put_all}
use georesearch_dsh.Service.Guards.{sort_by}
use georesearch_dsh.Service.Results.{concat_refs}
use georesearch_dsh.Service.Claims.References.{is_evidence_ref, is_result_ref}

pub record WritingInputClosure : Type 0 where
  pub sources : List SourceRecord
  pub evidence : List EvidenceRecord
  pub experiment_specs : List ExperimentSpec
  pub runs : List RunRecord
  pub results : List ResultRecord
  pub validation_reports : List ValidationReport
  pub artifact_refs : List ArtifactRef
  pub limitations : List String

-- `[...new Set(xs)]`, the first of equal strings first.
unfoldable pub distinct : List String → List String
distinct [] = []
distinct (x ∷ xs) = x ∷ filter_if (λ y. not (y == x)) (distinct xs)

abbrev pub concat_map {ℓ} : {A : Type ℓ} → (A → List String) → List A → List String
concat_map f [] = []
concat_map f (x ∷ xs) = f x ++ concat_map f xs

abbrev pub operand_ids : Option ClaimCalculation → List String
operand_ids none = []
operand_ids (some c) = c.operand_result_ids

abbrev pub evidence_ids : ClaimRecord → List String
evidence_ids c = map (λ r. r.record_id) (filter_if (λ r. is_evidence_ref r.kind) c.support_refs)

abbrev pub result_ids : ClaimRecord → List String
result_ids c =
    map (λ r. r.record_id) (filter_if (λ r. is_result_ref r.kind) c.support_refs)
    ++ operand_ids c.calculation

abbrev pub packet_invalid : Failure
packet_invalid = geo_research_error "WRITING_PACKET_INVALID"

-- `requiredRecord`
abbrev pub required {ℓ} : {A : Type ℓ} → Option A → Result A
required none = err packet_invalid
required (some a) = ok a

-- `ids.map(id => requiredRecord(m[id]))`
unfoldable pub required_all {ℓ} : {A : Type ℓ} → Dict A → List String → Result (List A)
required_all m [] = ok []
required_all m (k ∷ ks) = required (get m k) >>= λ a. required_all m ks >>= λ rest. ok (a ∷ rest)

module _ (le : String → String → Bool) where
  -- The records under some ids, in the order of a key.
  unfoldable pub gather {ℓ} : {A : Type ℓ} → (A → String) → Dict A → List String → Result (List A)
  unfolding distinct required_all
  gather key m ks = required_all m (distinct ks) >>= λ found. ok (sort_by le key found)

  unfoldable pub collect_writing_inputs :
      ProjectReducerState → List ClaimRecord → Result WritingInputClosure
  unfolding gather concat_refs
  collect_writing_inputs s claims =
      gather (λ e. e.evidence_id) (or_empty s.evidence) (concat_map evidence_ids claims)
      >>= λ evidence.
          gather (λ e. e.source_id) (or_empty s.sources) (map (λ e. e.source_id) evidence)
          >>= λ sources.
              gather (λ r. r.result_id) (or_empty s.results) (concat_map result_ids claims)
              >>= λ results. gather (λ r. r.run_id) s.runs (map (λ r. r.run_id) results) >>= λ runs.
                  gather (λ e. e.spec_id) (or_empty s.experiment_specs)
                    (map (λ r. r.experiment_spec_id) results)
                  >>= λ specs.
                      gather (λ r. r.report_id) (or_empty s.validation_reports)
                        (concat_map (λ c. c.validation_report_ids) claims)
                      >>= λ reports. ok (record {
                        sources = sources;
                        evidence = evidence;
                        experiment_specs = specs;
                        runs = runs;
                        results = results;
                        validation_reports = reports;
                        artifact_refs =
                            sort_by le (λ r. r.artifact_id)
                              (values (put_all (λ r. r.artifact_id) [] (concat_refs results)));
                        limitations =
                            sort_strings (unique (concat_map (λ c. c.limitations) claims));
                      })
