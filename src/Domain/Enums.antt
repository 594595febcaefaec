-- ===== src/Domain/Enums.antt =====
-- internal/domain/enums.go. A constant of a string type is a constructor, and `String` its text.
-- `Stage` is an open string type (handlers use stages that `enums.go` does not list), so a stage is
-- a text and its constants are texts.
pub mod RoundTrip
use Prim.Native.String.{◌++◌}
use prowiki.Base.{String, Bool, ◌||◌, if◌then◌else◌, str_eq}
use prowiki.Domain.Errors.{Error, Result, ok, err}

pub data JobStatus : Type 0 where
  pending processing completed failed dead_lettered : JobStatus

unfoldable pub job_status_text : JobStatus → String
job_status_text pending = "pending"
job_status_text processing = "processing"
job_status_text completed = "completed"
job_status_text failed = "failed"
job_status_text dead_lettered = "dead_lettered"

unfoldable pub parse_job_status : String → Result JobStatus
parse_job_status s =
    if str_eq s "pending"
    then ok pending
    else if str_eq s "processing"
    then ok processing
    else if str_eq s "completed"
    then ok completed
    else if str_eq s "failed"
    then ok failed
    else if str_eq s "dead_lettered"
    then ok dead_lettered
    else err (Error.message ("invalid JobStatus: " ++ s))

pub data EntityType : Type 0 where
  file feature entity intersection macro_pipeline style : EntityType

unfoldable pub entity_type_text : EntityType → String
entity_type_text file = "file"
entity_type_text feature = "feature"
entity_type_text entity = "entity"
entity_type_text intersection = "intersection"
entity_type_text macro_pipeline = "macro_pipeline"
entity_type_text style = "style"

unfoldable pub parse_entity_type : String → Result EntityType
parse_entity_type s =
    if str_eq s "file"
    then ok file
    else if str_eq s "feature"
    then ok feature
    else if str_eq s "entity"
    then ok entity
    else if str_eq s "intersection"
    then ok intersection
    else if str_eq s "macro_pipeline"
    then ok macro_pipeline
    else if str_eq s "style"
    then ok style
    else err (Error.message ("invalid EntityType: " ++ s))

abbrev pub Stage : Type 0
Stage = String

abbrev pub stage_level1_overview : Stage
stage_level1_overview = "level_1_overview"

abbrev pub stage_level2_entity : Stage
stage_level2_entity = "level_2_entity"

abbrev pub stage_level3_feature : Stage
stage_level3_feature = "level_3_feature"

abbrev pub stage_level4_edge_case : Stage
stage_level4_edge_case = "level_4_edge_case"

abbrev pub stage_style_evaluation : Stage
stage_style_evaluation = "style_evaluation"

abbrev pub stage_intersection_synthesis : Stage
stage_intersection_synthesis = "intersection_synthesis"

abbrev pub stage_macro_synthesis : Stage
stage_macro_synthesis = "macro_synthesis"

-- The `case` list of `ParseStage`.
unfoldable pub is_listed_stage : Stage → Bool
is_listed_stage s =
    str_eq s stage_level1_overview
    || str_eq s stage_level2_entity
    || str_eq s stage_level3_feature
    || str_eq s stage_level4_edge_case
    || str_eq s stage_style_evaluation
    || str_eq s stage_intersection_synthesis
    || str_eq s stage_macro_synthesis

unfoldable pub parse_stage : String → Result Stage
unfolding is_listed_stage
parse_stage s = if is_listed_stage s then ok s else err (Error.message ("invalid Stage: " ++ s))

pub data ModelTier : Type 0 where
  tier1 tier2 : ModelTier

unfoldable pub model_tier_text : ModelTier → String
model_tier_text tier1 = "tier_1"
model_tier_text tier2 = "tier_2"

unfoldable pub parse_model_tier : String → Result ModelTier
parse_model_tier s =
    if str_eq s "tier_1"
    then ok tier1
    else if str_eq s "tier_2"
    then ok tier2
    else err (Error.message ("invalid ModelTier: " ++ s))
