-- ===== src/Contracts/Brief.antt =====
-- The research brief (packages/contracts/src/phase2.ts).
use georesearch_dsh.Prelude.{List, Option, String}
use georesearch_dsh.Contracts.Json.{Number, Sha256Digest}

pub record ResearchRegion : Type 0 where
  pub description : String
  pub bbox : Option (Number × Number × Number × Number)
  pub crs : Option String

pub record ResearchTimeRange : Type 0 where
  pub start : Option String
  pub end : Option String

pub record ResearchHypothesis : Type 0 where
  pub hypothesis_id : String
  pub statement : String

pub record UserConfirmationRecord : Type 0 where
  pub confirmed_at : String
  pub audit_note : String

pub record ResearchBrief : Type 0 where
  pub brief_id : String
  pub title : String
  pub research_question : String
  pub background : String
  pub motivation : String
  pub region : ResearchRegion
  pub time_range : ResearchTimeRange
  pub research_subjects : List String
  pub data_modalities : List String
  pub hypotheses : List ResearchHypothesis
  pub expected_contributions : List String
  pub constraints : List String
  pub known_assumptions : List String
  pub success_criteria : List String
  pub user_confirmation : UserConfirmationRecord
  pub digest : Sha256Digest
  pub committed_at : String
