-- ===== src/Handlers/Parse.antt =====
-- internal/handlers/parse.go: the handler of the stage `PARSE`.
use prowiki.Base.{ℕ, String, List, [], ◌∷◌, Bytes, some}
use prowiki.Domain.Errors.{Error, Result, ok, err, panicked}
use prowiki.Domain.Enums.{pending}
use prowiki.Domain.Entities.{Job}
use prowiki.Db.Io.{Env, World, Io, pure, lift, ◌>>=◌, ◌>>◌}
use prowiki.Txn.{TxFunc}
use prowiki.Worker.{Dispatch}
use prowiki.Store.Versions
use prowiki.Store.Features
use prowiki.Store.Jobs
use prowiki.Llm.Request.{CompletionRequest, Completer, complete, Registry, active}
use prowiki.Handlers.{stage_parse}

pub record ParsedFeature : Type 0 where
  pub name : String
  pub description : String

pub record ParseResult : Type 0 where
  pub summary : String
  pub features : List ParsedFeature

-- `fmt.Errorf("…: %w", err)` around a failed call.
abbrev pub wrapping : {A : Type 0} → String → Result A × World → Result A × World
wrapping s (ok a, w) = (ok a, w)
wrapping s (err e, w) = (err (Error.wrapped s e), w)
wrapping s (panicked p, w) = (panicked p, w)

abbrev pub wrapped_call : {A : Type 0} → String → Io A → Io A
wrapped_call s m w = wrapping s (m w)

-- The handler's collaborators. `parse_strict` is `llm.ParseStrict[ParseResult]`.
pub record ParseHandler : Type 0 where
  pub completer : Completer
  pub registry : Registry
  pub parse_strict : Bytes → Result ParseResult

abbrev pub downstream_job : ℕ → ℕ → Job
downstream_job project version = record {
  id = 0;
  project_id = project;
  target_id = version;
  target_type = "FILE_VERSION";
  stage = "ANALYZE_STYLE";
  status = pending;
  priority = 5;
  retry_count = 0;
  payload = "";
  created_at = 0;
  updated_at = 0;
}

-- The loop over the features.
unfoldable pub insert_features : Env → ℕ → ℕ → List ParsedFeature → TxFunc
insert_features env project version [] = pure tt
insert_features env project version (f ∷ fs) = do
  id ← Features.create env project f.name f.description
  Features.add_to_file_version env version id
  insert_features env project version fs

-- The transaction that `Handle` returns.
unfoldable pub write_result : Env → ℕ → ℕ → ParseResult → TxFunc
unfolding insert_features
write_result env project version result = do
  Versions.update_summary env version result.summary
  insert_features env project version result.features
  Jobs.enqueue_many env (downstream_job project version ∷ [])

abbrev pub parse_request : Bytes → CompletionRequest
parse_request prompt = record {
  model = "gpt-4o-mini";
  messages = record { role = "system"; content = prompt } ∷ [];
  max_tokens = 0;
  response_format = some "json_object";
}

-- `Handle`
unfoldable pub handle : Env → ParseHandler → Dispatch
unfolding write_result
handle env h job = do
  version ← wrapped_call "failed to get file version" (Versions.get_by_id env job.target_id)
  template ← wrapped_call "failed to get parse prompt" (active h.registry stage_parse)
  rendered ←
      wrapped_call "failed to render parse prompt"
        (lift (h.registry.render template (version.content ∷ [])))
  text ← wrapped_call "llm completion failed" (complete h.completer (parse_request rendered))
  result ← wrapped_call "failed to parse json strict" (lift (h.parse_strict text))
  pure (write_result env job.project_id version.id result)
