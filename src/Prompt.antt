-- ===== src/Prompt.antt =====
-- internal/prompt/db_registry.go: the registry over the prompts of the database. text/template is a
-- parameter: it parses a template and executes it on the variables.
pub mod Hardcoded
use prowiki.Base.{List, Bytes}
use prowiki.Domain.Errors.{Result}
use prowiki.Domain.Entities.{PromptTemplate}
use prowiki.Db.Io.{Env}
use prowiki.Store.Prompts
use prowiki.Llm.Request.{Registry}

-- `DBRegistry`
abbrev pub db_registry : Env → (PromptTemplate → List Bytes → Result Bytes) → Registry
db_registry env render = record { find = Prompts.active env; render = render }
