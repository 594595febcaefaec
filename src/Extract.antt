-- ===== src/Extract.antt =====
-- internal/app/extract/service.go with schemas.go: the overview of a file version. The service writes
-- outside of a transaction.
pub mod Sound
use prowiki.Base.{ℕ, String, List, [], ◌∷◌, length, take, ltb, if◌then◌else◌, Option, some, Bytes}
use prowiki.Domain.Errors.{Error, Result, ok, err, panicked, is_context_overflow}
use prowiki.Domain.Enums.{pending, completed, stage_level1_overview, stage_level2_entity}
use prowiki.Domain.Entities.{Job}
use prowiki.Domain.Language.{Language}
use prowiki.Db.Io.{Env, World, Io, pure, lift, ◌>>=◌, ◌>>◌}
use prowiki.Store.Versions
use prowiki.Store.Features
use prowiki.Store.Jobs
use prowiki.Llm.Request.{CompletionRequest, Completer, complete, Registry, active}
use prowiki.Handlers.Parse.{wrapped_call}

pub record FeatureSchema : Type 0 where
  pub name : String
  pub description : String

pub record OverviewSchema : Type 0 where
  pub summary : String
  pub features : List FeatureSchema

-- The answers of the stages level_2_entity and level_3_feature, which no code asks for.
pub record EntitySchema : Type 0 where
  pub name : String
  pub kind : String
  pub description : String

pub record EntityListSchema : Type 0 where
  pub entities : List EntitySchema

pub record InteractionSchema : Type 0 where
  pub to_feature_id : ℕ
  pub description : String

pub record InteractionListSchema : Type 0 where
  pub interactions : List InteractionSchema

-- The service's collaborators. `parse_strict` is `llm.ParseStrict[OverviewSchema]`.
pub record Service : Type 0 where
  pub completer : Completer
  pub registry : Registry
  pub scrub : Bytes → Language → Bytes
  pub parse_strict : Bytes → Result OverviewSchema

abbrev pub overview_request : Bytes → CompletionRequest
overview_request prompt = record {
  model = "gpt-4o-mini";
  messages = record { role = "user"; content = prompt } ∷ [];
  max_tokens = 0;
  response_format = some "json_schema";
}

-- `4096 / 2` tokens of four bytes.
abbrev pub truncated : Bytes → Bytes
truncated prompt = if ltb 8192 (length prompt) then take 8192 prompt else prompt

-- The second request, where the first is an overflow of the context.
abbrev pub or_truncated : Completer → Bytes → Result Bytes × World → Result Bytes × World
or_truncated c prompt (ok text, w) = (ok text, w)
or_truncated c prompt (err e, w) =
    if is_context_overflow e then complete c (overview_request (truncated prompt)) w else (err e, w)
or_truncated c prompt (panicked p, w) = (panicked p, w)

abbrev pub ask : Completer → Bytes → Io Bytes
ask c prompt w = or_truncated c prompt (complete c (overview_request prompt) w)

-- The loop over the features.
unfoldable pub write_features : Env → ℕ → ℕ → List FeatureSchema → Io (Unit {0})
write_features env project version [] = pure tt
write_features env project version (f ∷ fs) = do
  id ← Features.create env project f.name f.description
  Features.add_to_file_version env version id
  write_features env project version fs

abbrev pub next_job : Job → Job
next_job job = record {
  id = 0;
  project_id = job.project_id;
  target_id = job.target_id;
  target_type = "File";
  stage = stage_level2_entity;
  status = pending;
  priority = 1;
  retry_count = 0;
  payload = "";
  created_at = 0;
  updated_at = 0;
}

unfoldable pub write_overview : Env → Job → ℕ → OverviewSchema → Io (Unit {0})
unfolding write_features
write_overview env job version overview = do
  Versions.update_summary env version overview.summary
  write_features env job.project_id version overview.features
  Jobs.enqueue_many env (next_job job ∷ [])
  Jobs.update_status env job.id completed

-- `ProcessOverview`
unfoldable pub process_overview : Env → Service → Job → Io (Unit {0})
unfolding write_overview
process_overview env s job = do
  version ← wrapped_call "failed to get file version" (Versions.get_by_id env job.target_id)
  template ← wrapped_call "missing prompt" (active s.registry stage_level1_overview)
  prompt ← lift (s.registry.render template (s.scrub version.content "go" ∷ []))
  text ← wrapped_call "completion failed" (ask s.completer prompt)
  overview ← wrapped_call "schema parsing failed" (lift (s.parse_strict text))
  write_overview env job version.id overview
