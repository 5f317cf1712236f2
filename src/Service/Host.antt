-- ===== src/Service/Host.antt =====
-- What the guarded commits need from outside of the service, and the values whose canonical JSON
-- they compare or take a digest of.
use georesearch_dsh.Prelude.{ℕ, String, Bool, List, ◌==◌}
use georesearch_dsh.Contracts.Json.{Number, Sha256Digest}
use georesearch_dsh.Contracts.Run.{RunRecord, TestSpec}
use georesearch_dsh.Contracts.Artifact.{ArtifactRef}
use georesearch_dsh.Contracts.Reproduction.{
  RepositoryAudit, ReproductionPlan, ReproductionTestSpecRecord, ReproductionReport,
}
use georesearch_dsh.Contracts.Dataset.{GeodataInspectionReport, DatasetManifest}
use georesearch_dsh.Contracts.Experiment.{ExperimentSpec, ExperimentAmendment, ResultRecord}
use georesearch_dsh.Contracts.Validation.{ValidationPlan, ValidationReport, ReviewRecord}
use georesearch_dsh.Contracts.Claim.{ClaimRecord}
use georesearch_dsh.Contracts.Manuscript.{WritingPacket, ManuscriptRecord, ManuscriptAudit}

-- A JSON value that the service builds from a record. `body` is the record without its digest,
-- `snapshot` without its digest and the time of its making, `stable` without its digest and its
-- status; `pending` is `stable` with the status `pending` put back. A field that is left out is
-- empty here.
pub data Canonical : Type 0 where
  run : RunRecord → Canonical
  run_without_outputs : RunRecord → Canonical
  artifact_refs : List ArtifactRef → Canonical
  artifact_ref : ArtifactRef → Canonical
  test_spec : TestSpec → Canonical
  audit_body audit_snapshot : RepositoryAudit → Canonical
  plan_body plan_snapshot : ReproductionPlan → Canonical
  test_spec_body test_spec_snapshot : ReproductionTestSpecRecord → Canonical
  stable_report pending_report : ReproductionReport → Canonical
  geodata_report_body : GeodataInspectionReport → Canonical
  manifest_body : DatasetManifest → Canonical
  spec_body : ExperimentSpec → Canonical
  amendment_body : ExperimentAmendment → Canonical
  stable_result pending_result : ResultRecord → Canonical
  validation_plan_body : ValidationPlan → Canonical
  validation_report_body : ValidationReport → Canonical
  review_body : ReviewRecord → Canonical
  claim_body : ClaimRecord → Canonical
  packet_body : WritingPacket → Canonical
  manuscript_body : ManuscriptRecord → Canonical
  manuscript_audit_body : ManuscriptAudit → Canonical

-- `canonical_json` is `canonicalJson` of contracts on these values, `sha256` the hash function of
-- Node on its text, `to_lower_case` is `toLowerCase` on code points and `locale_le` is
-- `left.localeCompare(right) <= 0`.
-- The rest is the arithmetic of JavaScript's numbers, which are kept by their text.
pub record Host : Type 0 where
  pub canonical_json : Canonical → String
  pub sha256 : String → Sha256Digest
  pub to_lower_case : List ℕ → List ℕ
  pub locale_le : String → String → Bool
  pub is_finite : Number → Bool
  pub add : Number → Number → Number
  pub subtract : Number → Number → Number
  pub multiply : Number → Number → Number
  pub divide : Number → Number → Number
  pub of_nat : ℕ → Number

-- `digestJson`
unfoldable pub digest_json : Host → Canonical → Sha256Digest
digest_json h c = h.sha256 (h.canonical_json c)

-- `sameRepositoryAuditSnapshot`
unfoldable pub same_repository_audit_snapshot : Host → RepositoryAudit → RepositoryAudit → Bool
unfolding digest_json
same_repository_audit_snapshot h left right =
    digest_json h (audit_snapshot (snapshot left))
    == digest_json h (audit_snapshot (snapshot right))
  where
    snapshot : RepositoryAudit → RepositoryAudit
    snapshot a = record a { audited_at = ""; digest = "" }

-- `sameReproductionPlanSnapshot`
unfoldable pub same_reproduction_plan_snapshot : Host → ReproductionPlan → ReproductionPlan → Bool
unfolding digest_json
same_reproduction_plan_snapshot h left right =
    digest_json h (plan_snapshot (snapshot left)) == digest_json h (plan_snapshot (snapshot right))
  where
    snapshot : ReproductionPlan → ReproductionPlan
    snapshot a = record a { created_at = ""; digest = "" }

-- `sameReproductionTestSpecSnapshot`
unfoldable pub same_reproduction_test_spec_snapshot :
    Host → ReproductionTestSpecRecord → ReproductionTestSpecRecord → Bool
unfolding digest_json
same_reproduction_test_spec_snapshot h left right =
    digest_json h (test_spec_snapshot (snapshot left))
    == digest_json h (test_spec_snapshot (snapshot right))
  where
    snapshot : ReproductionTestSpecRecord → ReproductionTestSpecRecord
    snapshot a = record a { registered_at = ""; digest = "" }
