-- ===== src/Service/Sources.antt =====
-- `commitSourceRecord`, `commitEvidenceRecord` and `commitRepositoryAudit`: what they check.
use georesearch_dsh.Prelude.{
  String, true, ◌&&◌, not, ◌==◌, nat_eq, if◌then◌else◌, Result, ok, err, Failure,
  geo_research_error, other_error,
}
use georesearch_dsh.Dict.{get, or_empty}
use georesearch_dsh.Contracts.Evidence.{SourceRecord, EvidenceRecord}
use georesearch_dsh.Contracts.Reproduction.{RepositoryAudit}
use georesearch_dsh.Contracts.State.{ProjectReducerState}
use georesearch_dsh.Reducer.Maps.{is_current}
use georesearch_dsh.Service.Host.{Host, Canonical, digest_json, same_repository_audit_snapshot}
use georesearch_dsh.Service.Guards.{Decision, holds, settle, is_committed, binding_mismatch}

unfoldable pub source_guard : SourceRecord → ProjectReducerState → Result Decision
source_guard source s =
    settle (get (or_empty s.sources) source.source_id)
      (λ existing. existing.digest == source.digest) (geo_research_error "SOURCE_INVALID")

-- Unlike `assertCurrentArtifact`, this asks for no verified integrity.
unfoldable pub evidence_guard : EvidenceRecord → ProjectReducerState → Result Decision
evidence_guard evidence s =
    if not (holds (λ source. true) (get (or_empty s.sources) evidence.source_id))
    then err (geo_research_error "EVIDENCE_SOURCE_NOT_FOUND")
    else if not (
        holds
          (λ a.
            a.digest == evidence.artifact_digest
            && is_committed a.materialization
            && is_current a.validity)
          (get s.artifacts evidence.artifact_id))
    then err (geo_research_error "EVIDENCE_READ_RECEIPT_MISMATCH")
    else settle (get (or_empty s.evidence) evidence.evidence_id)
        (λ existing. existing.digest == evidence.digest)
        (geo_research_error "EVIDENCE_CANDIDATE_INVALID")

-- `assertRecordDigest` and the project's id, which are checked before the state is loaded.
unfoldable pub audit_precheck : Host → String → RepositoryAudit → Result (Unit {0})
unfolding digest_json
audit_precheck h project_id audit =
    if not (digest_json h (Canonical.audit_body (record audit { digest = "" })) == audit.digest)
    then err other_error
    else if not (audit.project_id == project_id)
    then err other_error
    else ok tt

abbrev pub audit_invalid : Failure
audit_invalid = geo_research_error "REPOSITORY_AUDIT_INVALID"

unfoldable pub audit_guard : Host → RepositoryAudit → ProjectReducerState → Result Decision
audit_guard h audit s =
    if not (
      holds (λ source. source.digest == audit.source_digest)
        (get (or_empty s.sources) audit.source_id))
    then err audit_invalid
    else if not (
        holds (λ b. nat_eq b.binding_version audit.workspace_binding_version)
          (get s.workspace_bindings audit.workspace_id))
    then err binding_mismatch
    else settle (get (or_empty s.repository_audits) audit.audit_id)
        (λ existing. same_repository_audit_snapshot h existing audit) audit_invalid
