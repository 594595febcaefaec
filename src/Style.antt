-- ===== src/Style.antt =====
-- internal/app/style/evaluator.go: the anomalies of a file version against a style rule.
pub mod Written
use prowiki.Base.{ℕ, String, List, [], ◌∷◌, some, Bytes}
use prowiki.Domain.Errors.{Result}
use prowiki.Domain.Enums.{stage_style_evaluation}
use prowiki.Domain.Entities.{CodeStyle, FileVersion}
use prowiki.Db.Io.{Env, Io, pure, lift, ◌>>=◌, ◌>>◌}
use prowiki.Store.Styles
use prowiki.Llm.Request.{CompletionRequest, Completer, complete, Registry, active}
use prowiki.Handlers.Parse.{wrapped_call}

pub record AnomalySchema : Type 0 where
  pub rationale : String

pub record StyleSchema : Type 0 where
  pub anomalies : List AnomalySchema

-- The evaluator's collaborators: `codes_of` gives the bytes of a rule, and `parse_strict` is
-- `llm.ParseStrict[StyleSchema]`.
pub record Evaluator : Type 0 where
  pub completer : Completer
  pub registry : Registry
  pub codes_of : String → Bytes
  pub parse_strict : Bytes → Result StyleSchema

abbrev pub style_request : Bytes → CompletionRequest
style_request prompt = record {
  model = "gpt-4o-mini";
  messages = record { role = "user"; content = prompt } ∷ [];
  max_tokens = 0;
  response_format = some "json_schema";
}

-- The loop over the anomalies.
unfoldable pub write_anomalies : Env → ℕ → ℕ → List AnomalySchema → Io (Unit {0})
write_anomalies env version style [] = pure tt
write_anomalies env version style (a ∷ rest) =
    Styles.create_style_anomaly env version style a.rationale
    >> write_anomalies env version style rest

-- `Evaluate`
unfoldable pub evaluate : Env → Evaluator → CodeStyle → FileVersion → Io (Unit {0})
unfolding write_anomalies
evaluate env e rule version = do
  template ← wrapped_call "missing prompt for style" (active e.registry stage_style_evaluation)
  prompt ← lift (e.registry.render template (e.codes_of rule.rule ∷ version.content ∷ []))
  text ← complete e.completer (style_request prompt)
  found ← lift (e.parse_strict text)
  write_anomalies env version.id rule.id found.anomalies
