-- ===== src/Contracts/Artifact.antt =====
-- Artifacts, their lineage and their status (packages/contracts/src/phase2.ts).
use georesearch_dsh.Prelude.{List, Option, String, ℕ}
use georesearch_dsh.Contracts.Json.{Sha256Digest}

pub data ArtifactMaterialization : Type 0 where
  candidate committed rejected quarantined : ArtifactMaterialization

pub data ArtifactIntegrity : Type 0 where
  unchecked verified corrupt missing : ArtifactIntegrity

pub data ArtifactValidity : Type 0 where
  current stale superseded : ArtifactValidity

pub record ArtifactRef : Type 0 where
  pub artifact_id : String
  pub digest : Sha256Digest
  pub kind : String

pub record ArtifactLineage : Type 0 where
  pub input_digests : List Sha256Digest
  pub transformation_type : String
  pub code_digest : Option Sha256Digest
  pub config_digest : Option Sha256Digest
  pub output_digest : Sha256Digest

pub record ArtifactRecord : Type 0 where
  pub artifact_id : String
  pub digest : Sha256Digest
  pub kind : String
  pub size : ℕ
  pub media_type : String
  pub source_relative_path : Option String
  pub workspace_id : String
  pub materialization : ArtifactMaterialization
  pub integrity : ArtifactIntegrity
  pub validity : ArtifactValidity
  pub object_path : String
  pub lineage : ArtifactLineage
  pub committed_at : String
