-- ===== src/Prompt/Hardcoded.antt =====
-- internal/prompt/registry.go: the registry with the one prompt of the handlers, with text/template as
-- a parameter that parses a template and executes it.
use Prim.Native.String.{◌++◌}
use prowiki.Base.{List, Bytes, String, str_eq, false, if◌then◌else◌}
use prowiki.Domain.Errors.{Error, Result, ok, err, panicked}
use prowiki.Domain.Enums.{Stage}
use prowiki.Domain.Entities.{PromptTemplate}

abbrev pub parse_prompt : String → PromptTemplate
parse_prompt template = record {
  id = 0;
  stage = "PARSE";
  template = template;
  version = 0;
  is_active = false;
  created_at = 0;
  updated_at = 0;
}

-- `Active`, of the text of the template.
unfoldable pub active : String → Stage → Result PromptTemplate
active template stage =
    if str_eq stage "PARSE"
    then ok (parse_prompt template)
    else err (Error.message ("no prompt found for stage: " ++ stage))

abbrev pub executed : Stage → Result Bytes → Result Bytes
executed stage (ok text) = ok text
executed stage (err e) = err (Error.wrapped ("failed to render template \"" ++ stage ++ "\"") e)
executed stage (panicked p) = panicked p

-- `Render`, of what parsing the template gives.
abbrev pub rendered :
    {T : Type 0} → Stage → (T → List Bytes → Result Bytes) → List Bytes → Result T → Result Bytes
rendered stage execute vars (ok t) = executed stage (execute t vars)
rendered stage execute vars (err e) = err (Error.wrapped "failed to parse template" e)
rendered stage execute vars (panicked p) = panicked p
