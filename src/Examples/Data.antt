-- ===== src/Examples/Data.antt =====
-- A project with one workspace, some records, and digests that are all alike.
use georesearch_dsh.Prelude.{String, none, some, List, [], ◌∷◌, true, refl, Result, ok, err}
use georesearch_dsh.Contracts.Json.{Sha256Digest}
use georesearch_dsh.Contracts.Workspace.{ProjectBinding, WorkspaceBinding}
use georesearch_dsh.Contracts.Artifact.{
  ArtifactRecord, ArtifactMaterialization, ArtifactIntegrity, ArtifactValidity,
}
use georesearch_dsh.Contracts.State.{ProjectReducerState}
use georesearch_dsh.Contracts.Event.{ProjectEventData, ProjectEvent}
use georesearch_dsh.Reducer.{created_state}
use georesearch_dsh.Store.Disk.{Encoding, is_sha256_digest}

abbrev pub digest_a : Sha256Digest
digest_a = "sha256:00000000000000000000000000000000000000000000000000000000000000aa"

abbrev pub digest_b : Sha256Digest
digest_b = "sha256:00000000000000000000000000000000000000000000000000000000000000bb"

abbrev pub now : String
now = "2026-01-01T00:00:00.000Z"

abbrev pub binding : ProjectBinding
binding = record {
  project_id = "p1";
  binding_id = "binding-1";
  workspace_ids = "w1" ∷ [];
  created_at = now;
  updated_at = now;
}

abbrev pub workspace : WorkspaceBinding
workspace = record {
  binding_version = 1;
  workspace_id = "w1";
  project_id = "p1";
  canonical_path = "/w1";
  volume_identity = "v";
  directory_file_identity = "f";
  git_common_dir_identity = none;
  git_worktree_identity = none;
  attached_at = now;
  verified_at = now;
}

abbrev pub artifact : String → Sha256Digest → List Sha256Digest → ArtifactRecord
artifact k digest inputs = record {
  artifact_id = k;
  digest = digest;
  kind = "text";
  size = 1;
  media_type = "text/plain";
  source_relative_path = some "out.txt";
  workspace_id = "w1";
  materialization = ArtifactMaterialization.committed;
  integrity = ArtifactIntegrity.verified;
  validity = ArtifactValidity.current;
  object_path = "objects/sha256/aa";
  lineage = record {
    input_digests = inputs;
    transformation_type = "import";
    code_digest = none;
    config_digest = none;
    output_digest = digest;
  };
  committed_at = now;
}

abbrev pub event_of : ProjectEventData → ProjectEvent
event_of content = record {
  body = record {
    event_schema_version = 1;
    reducer_version = 1;
    seq = 1;
    time = now;
    operation_key = digest_a;
    request_digest = digest_b;
    content = content;
    previous_hash = none;
  };
  hash = digest_a;
}

abbrev pub created : ProjectReducerState
unfolding created_state
created = created_state binding workspace

-- The state of a result that is known to be one.
abbrev pub or_created : Result ProjectReducerState → ProjectReducerState
or_created (ok s) = s
or_created (err e) = created

abbrev pub encoding : Encoding
unfolding is_sha256_digest
encoding = record {
  digest_event = λ b. digest_a;
  digest_state = λ b. digest_b;
  canonical_state = λ s. s.project_id;
  canonical_utc = λ t. true;
  binding_id = λ k. "binding-1";
  digest_event_format = λ b. refl;
  digest_state_format = λ b. refl;
}
