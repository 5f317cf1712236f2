-- ===== src/Contracts/Evidence.antt =====
-- Sources and evidence (packages/contracts/src/phase3.ts).
use georesearch_dsh.Prelude.{List, Option, String, ℕ}
use georesearch_dsh.Contracts.Json.{Sha256Digest}

pub data EvidenceRelation : Type 0 where
  supports partially_supports contradicts background_only insufficient : EvidenceRelation

pub record LiteratureAuthor : Type 0 where
  pub name : String
  pub orcid : Option String

pub record LiteratureProviderTrace : Type 0 where
  pub provider_id : String
  pub provider_version : String
  pub retrieved_at : String
  pub credential_ref : Option String
  pub credential_binding_epoch : ℕ
  pub request_id : Option String

pub record PaperReadLineage : Type 0 where
  pub provider_id : String
  pub provider_version : String
  pub parser_id : String
  pub parser_version : String
  pub config_digest : Sha256Digest

pub record SourceExternalRef : Type 0 where
  pub url : String
  pub label : Option String

pub data IdentifierKind : Type 0 where
  doi provider url other : IdentifierKind

pub record StableIdentifier : Type 0 where
  pub kind : IdentifierKind
  pub value : String

pub data VersionRelationKind : Type 0 where
  none is_version_of has_version is_preprint_of is_version_of_record : VersionRelationKind

pub record VersionRelation : Type 0 where
  pub kind : VersionRelationKind
  pub related_identifier : Option String

pub record SearchChainRef : Type 0 where
  pub chain_id : String
  pub generation : ℕ
  pub provider_item_id : String

pub data SourceStatus : Type 0 where
  resolved partial unresolved : SourceStatus

pub record SourceRecord : Type 0 where
  pub source_id : String
  pub title : String
  pub authors : List LiteratureAuthor
  pub year : Option ℕ
  pub venue : Option String
  pub stable_identifier : StableIdentifier
  pub source_type : String
  pub version_relation : VersionRelation
  pub retrieved_at : String
  pub provider_trace : LiteratureProviderTrace
  pub code_refs : List SourceExternalRef
  pub data_refs : List SourceExternalRef
  pub status : SourceStatus
  pub search_chain : SearchChainRef
  pub digest : Sha256Digest

pub record EvidenceLocator : Type 0 where
  pub page_start : ℕ
  pub page_end : ℕ

pub data ReviewStatus : Type 0 where
  pending accepted rejected needs_review : ReviewStatus

pub record EvidenceRecord : Type 0 where
  pub source_id : String
  pub artifact_id : String
  pub paper_read_receipt_id : String
  pub locator : EvidenceLocator
  pub proposition : String
  pub relation : EvidenceRelation
  pub paraphrase : String
  pub quoted_text : Option String
  pub limitations : List String
  pub evidence_id : String
  pub artifact_digest : Sha256Digest
  pub extraction_lineage : PaperReadLineage
  pub review_status : ReviewStatus
  pub committed_at : String
  pub digest : Sha256Digest
