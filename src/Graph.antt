-- ===== src/Graph.antt =====
-- internal/app/graph/synthesizer.go: the interactions of a feature with others.
pub mod Written
use prowiki.Base.{ℕ, String, List, [], ◌∷◌, some, Bytes}
use prowiki.Domain.Errors.{Result}
use prowiki.Domain.Enums.{stage_intersection_synthesis}
use prowiki.Domain.Entities.{Feature}
use prowiki.Db.Io.{Env, Io, pure, lift, ◌>>=◌, ◌>>◌}
use prowiki.Store.Graph
use prowiki.Llm.Request.{CompletionRequest, Completer, complete, Registry, active}
use prowiki.Handlers.Parse.{wrapped_call}

pub record Interaction : Type 0 where
  pub to_feature_id : ℕ
  pub description : String

pub record InteractionSchema : Type 0 where
  pub interactions : List Interaction

-- The synthesizer's collaborators: `codes_of` gives the bytes of a description, and `parse_strict` is
-- `llm.ParseStrict[InteractionSchema]`.
pub record Synthesizer : Type 0 where
  pub completer : Completer
  pub registry : Registry
  pub codes_of : String → Bytes
  pub parse_strict : Bytes → Result InteractionSchema

abbrev pub interaction_request : Bytes → CompletionRequest
interaction_request prompt = record {
  model = "gpt-4o";
  messages = record { role = "user"; content = prompt } ∷ [];
  max_tokens = 0;
  response_format = some "json_schema";
}

-- The loop over the interactions.
unfoldable pub write_interactions : Env → ℕ → List Interaction → Io (Unit {0})
write_interactions env from [] = pure tt
write_interactions env from (i ∷ is) =
    Graph.create_interaction env from i.to_feature_id i.description
    >> write_interactions env from is

-- `Synthesize`
unfoldable pub synthesize : Env → Synthesizer → Feature → Feature → Io (Unit {0})
unfolding write_interactions
synthesize env s f1 f2 = do
  template ←
      wrapped_call "missing prompt for interaction" (active s.registry stage_intersection_synthesis)
  prompt ←
      lift (s.registry.render template (s.codes_of f1.description ∷ s.codes_of f2.description ∷ []))
  text ← complete s.completer (interaction_request prompt)
  found ← lift (s.parse_strict text)
  write_interactions env f1.id found.interactions
