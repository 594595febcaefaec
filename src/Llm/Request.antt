-- ===== src/Llm/Request.antt =====
-- internal/domain/interfaces.go: requests to a language model, and the interfaces `Completer` and
-- `Registry`. The model is a service: its answer is a parameter, which may differ from call to call.
-- Of a request the fields that the program branches on or fills from its data are kept.
use prowiki.Base.{ℕ, String, List, Option, Bytes}
use prowiki.Domain.Errors.{Result}
use prowiki.Domain.Enums.{Stage}
use prowiki.Domain.Entities.{PromptTemplate}
use prowiki.Db.Io.{Io, later}

pub record Message : Type 0 where
  pub role : String
  pub content : Bytes

pub record CompletionRequest : Type 0 where
  pub model : String
  pub messages : List Message
  pub max_tokens : ℕ
  -- the type of the response format
  pub response_format : Option String

-- `Completer.Complete`: the text of the answer to a request, at the n-th call.
abbrev pub Completer : Type 0
Completer = ℕ → CompletionRequest → Result Bytes

abbrev pub complete : Completer → CompletionRequest → Io Bytes
complete c req w = (c w.tick req, later w)

-- `Registry`; the variables of `Render` are given in the order in which the program lists them.
pub record Registry : Type 0 where
  pub find : Stage → Io PromptTemplate
  pub render : PromptTemplate → List Bytes → Result Bytes

abbrev pub active : Registry → Stage → Io PromptTemplate
active r stage = r.find stage
