-- ===== src/Policy/Roles.antt =====
-- packages/contracts/src/index.ts: the tools and the skills of the specialists, by their names.
use georesearch_dsh.Prelude.{String, List, [], ◌∷◌}

-- `GeoResearchRole`
pub data GeoResearchRole : Type 0 where
  literature experiment reviewer writing : GeoResearchRole

abbrev pub delegation_bootstrap_tool : String
delegation_bootstrap_tool = "delegation_bootstrap"

-- `ROLE_ALLOWLISTS`
unfoldable pub allowlist_for : GeoResearchRole → List String
allowlist_for GeoResearchRole.literature =
    "read" ∷ "read_image" ∷ "glob" ∷ "grep" ∷ "skill" ∷ "web_search" ∷ "literature_search"
    ∷ "literature_continue" ∷ "paper_read" ∷ "source_resolve" ∷ "evidence_candidate"
    ∷ "citation_check" ∷ "attachment_list" ∷ "attachment_inspect" ∷ "attachment_read"
    ∷ "archive_list" ∷ "archive_read" ∷ "attachment_read_image" ∷ delegation_bootstrap_tool
    ∷ "structured_output" ∷ []
allowlist_for GeoResearchRole.experiment =
    "read" ∷ "read_image" ∷ "glob" ∷ "grep" ∷ "write" ∷ "edit" ∷ "skill" ∷ "repository_audit"
    ∷ "reproduction_plan_candidate" ∷ "geodata_inspect" ∷ "experiment_spec_candidate"
    ∷ "test_spec_candidate" ∷ "local_test_run" ∷ "formal_run_candidate" ∷ "run_status"
    ∷ "attachment_list" ∷ "attachment_inspect" ∷ "attachment_read" ∷ "archive_list" ∷ "archive_read"
    ∷ "attachment_read_image" ∷ delegation_bootstrap_tool ∷ "structured_output" ∷ []
allowlist_for GeoResearchRole.reviewer =
    "read" ∷ "read_image" ∷ "glob" ∷ "grep" ∷ "skill" ∷ "artifact_read" ∷ "run_record_read"
    ∷ "result_read" ∷ "geodata_validate" ∷ "experiment_validate" ∷ "citation_validate"
    ∷ "review_subject_read" ∷ "review_candidate" ∷ "attachment_list" ∷ "attachment_inspect"
    ∷ "attachment_read" ∷ "archive_list" ∷ "archive_read" ∷ "attachment_read_image"
    ∷ delegation_bootstrap_tool ∷ "structured_output" ∷ []
allowlist_for GeoResearchRole.writing =
    "skill" ∷ "writing_packet_read" ∷ "manuscript_candidate" ∷ "manuscript_validate"
    ∷ delegation_bootstrap_tool ∷ "structured_output" ∷ []

-- `REQUIRED_SKILLS`
unfoldable pub required_skills : List String
required_skills =
    "georesearch" ∷ "literature-review" ∷ "paper-reproduction" ∷ "geospatial-data"
    ∷ "remote-sensing-experiment" ∷ "spatial-statistics" ∷ "scientific-validation"
    ∷ "manuscript-writing" ∷ []

-- `allowedSkillsForRole`
unfoldable pub allowed_skills_for_role : GeoResearchRole → List String
allowed_skills_for_role GeoResearchRole.literature =
    "literature-review" ∷ "geospatial-data" ∷ "remote-sensing-experiment" ∷ "spatial-statistics"
    ∷ []
allowed_skills_for_role GeoResearchRole.experiment =
    "remote-sensing-experiment" ∷ "geospatial-data" ∷ "spatial-statistics" ∷ "paper-reproduction"
    ∷ []
allowed_skills_for_role GeoResearchRole.reviewer =
    "scientific-validation" ∷ "literature-review" ∷ "geospatial-data" ∷ "remote-sensing-experiment"
    ∷ "spatial-statistics" ∷ "paper-reproduction" ∷ "manuscript-writing" ∷ []
allowed_skills_for_role GeoResearchRole.writing = "manuscript-writing" ∷ []
