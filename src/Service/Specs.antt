-- ===== src/Service/Specs.antt =====
-- `commitExperimentSpec`: what it checks.
use georesearch_dsh.Prelude.{
  ◌+◌, String, Bool, true, false, ◌&&◌, ◌||◌, not, Option, none, some, List, [], ◌==◌, nat_eq,
  length, is_empty, any, includes, if◌then◌else◌, Result, ok, err, ◌>>=◌, Failure,
  geo_research_error, other_error,
}
use georesearch_dsh.Dict.{Dict, get, or_empty}
use georesearch_dsh.Contracts.Reproduction.{RepositoryAudit}
use georesearch_dsh.Contracts.Dataset.{GeodataInspectionReport, DatasetManifest, DatasetStatus}
use georesearch_dsh.Contracts.Experiment.{ExperimentSpec, ExperimentAmendment}
use georesearch_dsh.Contracts.State.{ProjectReducerState}
use georesearch_dsh.Reducer.Maps.{put_all}
use georesearch_dsh.Service.Host.{Host, Canonical, digest_json}
use georesearch_dsh.Service.Guards.{
  Decision, holds, settle, check_each, same_nullable, assert_current_artifact, binding_mismatch,
}

-- What one commit of a spec brings along.
pub record SpecBundle : Type 0 where
  pub geodata_reports : List GeodataInspectionReport
  pub dataset_manifests : List DatasetManifest
  pub experiment_spec : ExperimentSpec
  pub amendment : Option ExperimentAmendment

abbrev check_digest : Bool → Result (Unit {0})
check_digest same = if same then ok tt else err other_error

unfoldable pub spec_precheck : Host → String → SpecBundle → Result (Unit {0})
unfolding digest_json
spec_precheck h project_id b =
    check_each
      (λ r.
        check_digest
          (digest_json h (Canonical.geodata_report_body (record r { digest = "" })) == r.digest))
      b.geodata_reports
    >>= λ u.
        check_each
          (λ m.
            check_digest
              (digest_json h (Canonical.manifest_body (record m { digest = "" })) == m.digest))
          b.dataset_manifests
        >>= λ v.
            check_digest (
              digest_json h (Canonical.spec_body (record b.experiment_spec { digest = "" }))
              == b.experiment_spec.digest)
            >>= λ w. check_amendment b.amendment >>= λ x.
                check_digest (b.experiment_spec.project_id == project_id)
  where
    check_amendment : Option ExperimentAmendment → Result (Unit {0})
    check_amendment none = ok tt
    check_amendment (some a) =
        check_digest
          (digest_json h (Canonical.amendment_body (record a { digest = "" })) == a.digest)

abbrev pub spec_invalid : Failure
spec_invalid = geo_research_error "EXPERIMENT_SPEC_INVALID"

abbrev pub amendment_invalid : Failure
amendment_invalid = geo_research_error "EXPERIMENT_AMENDMENT_INVALID"

abbrev pub audit_fits_spec : ExperimentSpec → RepositoryAudit → Bool
audit_fits_spec spec audit =
    audit.digest == spec.repository_audit_digest
    && audit.source_tree_digest == spec.source_tree_digest
    && audit.workspace_id == spec.workspace_id
    && nat_eq audit.workspace_binding_version spec.workspace_binding_version

-- `new Map(geodataReports.map(report => [report.digest, report]))`
unfoldable pub report_by_digest : List GeodataInspectionReport → Dict GeodataInspectionReport
report_by_digest reports = put_all (λ r. r.digest) [] reports

-- `new Map(datasetManifests.map(manifest => [manifest.datasetId, manifest]))`
unfoldable pub manifest_by_id : List DatasetManifest → Dict DatasetManifest
manifest_by_id manifests = put_all (λ m. m.dataset_id) [] manifests

abbrev check_report :
    String → ExperimentSpec → ProjectReducerState → GeodataInspectionReport → Result (Unit {0})
check_report project_id spec s r =
    if not (
      r.project_id == project_id
      && r.workspace_id == spec.workspace_id
      && nat_eq r.workspace_binding_version spec.workspace_binding_version)
    then err (geo_research_error "GEODATA_INVALID")
    else check_each (λ asset. assert_current_artifact s asset.artifact_ref) r.assets

abbrev is_blocked : DatasetStatus → Bool
is_blocked DatasetStatus.blocked = true
is_blocked DatasetStatus.verified = false

abbrev check_manifest :
    String → SpecBundle → ProjectReducerState → DatasetManifest → Result (Unit {0})
check_manifest project_id b s m =
    if not (
      m.project_id == project_id
      && m.workspace_id == b.experiment_spec.workspace_id
      && nat_eq m.workspace_binding_version b.experiment_spec.workspace_binding_version
      && holds (λ r. true) (get (report_by_digest b.geodata_reports) m.inspection_report_digest))
    then err (geo_research_error "DATASET_MANIFEST_INVALID")
    else if is_blocked m.status
    then err (geo_research_error "GEODATA_MANDATORY_CHECK_BLOCKED")
    else check_each (assert_current_artifact s) m.asset_refs

abbrev pub amendment_fits : String → ExperimentSpec → ExperimentAmendment → ExperimentSpec → Bool
amendment_fits project_id spec amendment parent =
    parent.digest == amendment.from_spec_digest
    && same_nullable (some parent.digest) spec.parent_spec_digest
    && amendment.project_id == project_id
    && amendment.experiment_id == spec.experiment_id
    && amendment.to_spec_id == spec.spec_id
    && amendment.to_spec_digest == spec.digest
    && nat_eq spec.revision (parent.revision + 1)
    && includes amendment.amendment_id spec.amendment_ids

-- An initial spec has no history, an amended one follows on its parent.
abbrev pub check_lineage :
    String → ExperimentSpec → ProjectReducerState → Option ExperimentAmendment → Result (Unit {0})
check_lineage project_id spec s none =
    if not (nat_eq spec.revision 1)
      || not (same_nullable spec.parent_spec_digest none)
      || not (is_empty spec.amendment_ids)
    then err amendment_invalid
    else ok tt
check_lineage project_id spec s (some amendment) =
    if not (
      holds (amendment_fits project_id spec amendment)
        (get (or_empty s.experiment_specs) amendment.from_spec_id))
    then err amendment_invalid
    else if any (λ k. not (holds (λ r. true) (get s.runs k))) amendment.results_seen_run_ids
    then err amendment_invalid
    else ok tt

-- The checks between the binding and the lineage.
unfoldable pub check_inputs : String → SpecBundle → ProjectReducerState → Result (Unit {0})
unfolding report_by_digest manifest_by_id
check_inputs project_id b s =
    if not (
      nat_eq (length (report_by_digest b.geodata_reports)) (length b.geodata_reports)
      && nat_eq (length (manifest_by_id b.dataset_manifests)) (length b.dataset_manifests))
    then err spec_invalid
    else check_each (check_report project_id b.experiment_spec s) b.geodata_reports >>= λ u.
        check_each (check_manifest project_id b s) b.dataset_manifests >>= λ v. check_datasets
  where
    check_datasets : Result (Unit {0})
    check_datasets =
        if not (nat_eq (length b.experiment_spec.datasets) (length b.dataset_manifests))
          || any
              (λ d. not (
                holds (λ m. m.digest == d.dataset_digest)
                  (get (manifest_by_id b.dataset_manifests) d.dataset_id)))
              b.experiment_spec.datasets
        then err spec_invalid
        else ok tt

unfoldable pub spec_guard : String → SpecBundle → ProjectReducerState → Result Decision
spec_guard project_id b s =
    if not (
      holds (λ w. nat_eq w.binding_version spec.workspace_binding_version)
        (get s.workspace_bindings spec.workspace_id))
    then err binding_mismatch
    else if not (holds (λ brief. brief.digest == spec.research_brief_digest) s.research_brief)
    then err spec_invalid
    else if not
        (holds (audit_fits_spec spec) (get (or_empty s.repository_audits) spec.repository_audit_id))
    then err spec_invalid
    else check_inputs project_id b s >>= λ u. check_lineage project_id spec s b.amendment >>= λ v.
        settle (get (or_empty s.experiment_specs) spec.spec_id)
          (λ existing. existing.digest == spec.digest) spec_invalid
  where
    spec : ExperimentSpec
    spec = b.experiment_spec
