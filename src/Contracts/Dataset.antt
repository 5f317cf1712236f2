-- ===== src/Contracts/Dataset.antt =====
-- Datasets and their inspection (packages/contracts/src/phase5.ts).
use georesearch_dsh.Prelude.{Bool, List, Option, String, ℕ}
use georesearch_dsh.Dict.{Dict}
use georesearch_dsh.Contracts.Json.{Number, Sha256Digest}
use georesearch_dsh.Contracts.Artifact.{ArtifactRef}
use georesearch_dsh.Contracts.Brief.{ResearchTimeRange}

pub data GeodataAction : Type 0 where
  raster_metadata vector_metadata crs extent alignment nodata band_schema label_schema
        split_summary :
      GeodataAction

pub data GeodataCheckStatus : Type 0 where
  passed failed blocked not_applicable : GeodataCheckStatus

pub record GeospatialProviderCapability : Type 0 where
  pub provider_version : String
  pub libraries : Dict (Option String)

pub record DatasetSource : Type 0 where
  pub uri : Option String
  pub provider : String
  pub accessed_at : String

pub record DatasetCrs : Type 0 where
  pub authority : Option String
  pub wkt_digest : Option Sha256Digest
  pub axis_order : List String
  pub units : List String

pub record DatasetBand : Type 0 where
  pub index : ℕ
  pub name : String
  pub data_type : String
  pub unit : Option String
  pub scale : Number
  pub offset : Number
  pub no_data : Option Number
  pub color_interpretation : Option String

pub record DatasetField : Type 0 where
  pub name : String
  pub data_type : String
  pub unit : Option String
  pub nullable : Bool

pub record DatasetLabelClass : Type 0 where
  pub value : String
  pub label : String

pub data SplitRole : Type 0 where
  train validation test holdout : SplitRole

pub record DatasetSplitMembership : Type 0 where
  pub split_id : String
  pub role : SplitRole
  pub sample_ids : List String
  pub spatial_unit_ids : List String
  pub source_asset_digests : List Sha256Digest
  pub temporal_keys : List String

pub data DatasetStatus : Type 0 where
  verified blocked : DatasetStatus

pub record DatasetManifest : Type 0 where
  pub dataset_id : String
  pub name : String
  pub version : String
  pub project_id : String
  pub workspace_id : String
  pub workspace_binding_version : ℕ
  pub source : DatasetSource
  pub asset_refs : List ArtifactRef
  pub asset_digests : List Sha256Digest
  pub spatial_extent : Option (Number × Number × Number × Number)
  pub time_range : ResearchTimeRange
  pub crs : DatasetCrs
  pub resolution : Option (Number × Number)
  pub bands : List DatasetBand
  pub fields : List DatasetField
  pub quality_masks : List String
  pub preprocessing_level : String
  pub label_schema : List DatasetLabelClass
  pub splits : List DatasetSplitMembership
  pub known_limitations : List String
  pub inspection_report_digest : Sha256Digest
  pub status : DatasetStatus
  pub created_at : String
  pub digest : Sha256Digest

pub record GeodataAssetInspection : Type 0 where
  pub artifact_ref : ArtifactRef
  pub format : String
  pub width : Option ℕ
  pub height : Option ℕ
  pub feature_count : Option ℕ
  pub spatial_extent : Option (Number × Number × Number × Number)
  pub crs : DatasetCrs
  pub resolution : Option (Number × Number)
  pub transform : Option (Number × Number × Number × Number × Number × Number)
  pub bands : List DatasetBand
  pub fields : List DatasetField

pub data CheckDomain : Type 0 where
  common_gis optical geospatial_ml spatial_statistics : CheckDomain

pub record GeodataCheck : Type 0 where
  pub check_id : String
  pub domain : CheckDomain
  pub mandatory : Bool
  pub status : GeodataCheckStatus
  pub code : String
  pub message : String
  pub related_artifact_ids : List String

pub data Overall : Type 0 where
  passed failed blocked : Overall

pub record GeodataInspectionReport : Type 0 where
  pub report_id : String
  pub project_id : String
  pub workspace_id : String
  pub workspace_binding_version : ℕ
  pub dataset_id : String
  pub dataset_name : String
  pub dataset_version : String
  pub source : DatasetSource
  pub actions : List GeodataAction
  pub provider : GeospatialProviderCapability
  pub assets : List GeodataAssetInspection
  pub splits : List DatasetSplitMembership
  pub quality_masks : List String
  pub preprocessing_level : String
  pub label_schema : List DatasetLabelClass
  pub known_limitations : List String
  pub checks : List GeodataCheck
  pub overall : Overall
  pub inspected_at : String
  pub digest : Sha256Digest
