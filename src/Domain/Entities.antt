-- ===== src/Domain/Entities.antt =====
-- internal/domain/entities.go: the structs that the modelled components read and write. Times are
-- the readings of the database's clock, and `int` and `int64` fields are ℕ: every value that the
-- program writes there is a row id, a count or one of its positive constants.
use prowiki.Base.{ℕ, Bool, String, Option, Bytes}
use prowiki.Domain.Enums.{Stage, JobStatus, ModelTier}

pub record Project : Type 0 where
  pub id : ℕ
  pub name : String
  pub fs_location : String
  pub created_at : ℕ
  pub updated_at : ℕ

pub record Folder : Type 0 where
  pub id : ℕ
  pub project_id : ℕ
  pub parent_id : Option ℕ
  pub path : Bytes
  pub created_at : ℕ
  pub updated_at : ℕ

pub record File : Type 0 where
  pub id : ℕ
  pub project_id : ℕ
  pub folder_id : Option ℕ
  pub path : Bytes
  pub created_at : ℕ
  pub updated_at : ℕ

pub record FileVersion : Type 0 where
  pub id : ℕ
  pub file_id : ℕ
  pub content : Bytes
  pub ast_hash : String
  pub is_latest : Bool
  pub summary : String
  pub created_at : ℕ

pub record Feature : Type 0 where
  pub id : ℕ
  pub project_id : ℕ
  pub name : String
  pub description : String
  pub created_at : ℕ
  pub updated_at : ℕ

pub record CodeStyle : Type 0 where
  pub id : ℕ
  pub project_id : ℕ
  pub rule : String
  pub created_at : ℕ
  pub updated_at : ℕ

pub record StyleAnomaly : Type 0 where
  pub id : ℕ
  pub file_version_id : ℕ
  pub code_style_id : ℕ
  pub rationale : String
  pub created_at : ℕ

pub record Job : Type 0 where
  pub id : ℕ
  pub project_id : ℕ
  pub target_id : ℕ
  pub target_type : String
  pub stage : Stage
  pub status : JobStatus
  pub priority : ℕ
  pub retry_count : ℕ
  pub payload : String
  pub created_at : ℕ
  pub updated_at : ℕ

pub record FeatureInteraction : Type 0 where
  pub id : ℕ
  pub from_feature_id : ℕ
  pub to_feature_id : ℕ
  pub description : String
  pub created_at : ℕ

pub record PromptTemplate : Type 0 where
  pub id : ℕ
  pub stage : Stage
  pub template : String
  pub version : ℕ
  pub is_active : Bool
  pub created_at : ℕ
  pub updated_at : ℕ

pub record DeadLetterItem : Type 0 where
  pub id : ℕ
  pub job_id : ℕ
  pub payload : String
  pub reason : String
  pub created_at : ℕ

pub record FileFeature : Type 0 where
  pub file_version_id : ℕ
  pub feature_id : ℕ

-- The type is a text here, as in the program's struct.
pub record Entity : Type 0 where
  pub id : ℕ
  pub project_id : ℕ
  pub name : String
  pub entity_type : String
  pub description : String
  pub created_at : ℕ
  pub updated_at : ℕ

pub record LlmConfig : Type 0 where
  pub id : ℕ
  pub project_id : ℕ
  pub model_tier : ModelTier
  pub safe_token_limit : ℕ
  pub created_at : ℕ
  pub updated_at : ℕ

pub record ApiEndpoint : Type 0 where
  pub id : ℕ
  pub project_id : ℕ
  pub path : String
  pub method : String
  pub description : String
  pub created_at : ℕ
  pub updated_at : ℕ

-- `node_sequence` is a JSON array of the ids of features.
pub record MacroPipeline : Type 0 where
  pub id : ℕ
  pub project_id : ℕ
  pub node_sequence : String
  pub description : String
  pub created_at : ℕ
  pub updated_at : ℕ

pub record FeaturePair : Type 0 where
  pub feature_a : Feature
  pub feature_b : Feature

pub record FileStyle : Type 0 where
  pub file_version_id : ℕ
  pub code_style_id : ℕ
