-- ===== src/Tests/Graph.antt =====
-- The theorems on the graph of features and on the extraction, on a small database.
use prowiki.Domain.Enums.{stage_intersection_synthesis}
use prowiki.Graph.{Synthesizer, synthesize}
use prowiki.Tests.Samples.{one_feature}
use prowiki.Base.{length, refl, ℕ, true, ◌≡◌, ◌↔◌, List, [], ◌∷◌, Bytes, codes}
use prowiki.Domain.Errors.{Result, ok}
use prowiki.Domain.Entities.{PromptTemplate, FeatureInteraction}
use prowiki.Db.Io.{World, later}
use prowiki.Store.Graph.{discover_macro_pipelines, is_in, starts, further_depths}
use prowiki.Store.Graph.Reach.{HasNoDuplicates, IsInPipeline, discover_macro_pipelines_lem}
use prowiki.Store.Jobs.Sound.{IsSound}
use prowiki.Prompt.{db_registry}
use prowiki.Worker.{start}
use prowiki.Worker.Services.{service_dispatch}
use prowiki.Extract.{Service, process_overview}
use prowiki.Extract.Sound.{service_daemon-IsSound}
use prowiki.Tests.Samples.{small_tables, small_world, calm, shaky}
use prowiki.Tests.Queue.{small_tables-IsSound}

abbrev interaction : ℕ → ℕ → ℕ → FeatureInteraction
interaction id from to = record {
  id = id;
  from_feature_id = from;
  to_feature_id = to;
  description = "uses";
  created_at = 0;
}

-- The feature 1 of the project uses 2, and 2 uses 1 and 3.
abbrev cycle : List FeatureInteraction
cycle = interaction 1 1 2 ∷ interaction 2 2 1 ∷ interaction 3 2 3 ∷ []

abbrev linked_world : World
linked_world = record {
  tables = record small_tables { interactions = record { rows = cycle; seq = 3 } };
  tick = 0;
}

discover_macro_pipelines_lem_example :
    (ids : List ℕ) × (discover_macro_pipelines calm 1 linked_world ≡ (ok ids, later linked_world))
    × HasNoDuplicates ids
    × ((c : ℕ) → (is_in c ids ≡ true) ↔ IsInPipeline 1 small_tables.features.rows cycle c)
discover_macro_pipelines_lem_example =
    discover_macro_pipelines_lem (λ n. n) (λ jobs. jobs) 1 linked_world

abbrev plain : PromptTemplate → List Bytes → Result Bytes
plain template vars = ok (codes "Summarise.")

abbrev service : Service
service = record {
  completer = λ n req. ok (codes "{}");
  registry = db_registry shaky plain;
  scrub = λ text lang. text;
  parse_strict = λ text. ok (record { summary = "a file"; features = [] });
}

service_daemon-IsSound_example :
    IsSound
      (start 4 shaky
        (service_dispatch
          (process_overview shaky (record service { registry = db_registry shaky plain })))
        small_world).1.tables
service_daemon-IsSound_example =
    service_daemon-IsSound shaky service plain 4 small_world small_tables-IsSound

abbrev one_prompt : PromptTemplate
one_prompt = record {
  id = 1;
  stage = stage_intersection_synthesis;
  template = "How?";
  version = 1;
  is_active = true;
  created_at = 0;
  updated_at = 0;
}

-- The database has the prompt, and the answer names the features 1 and 9, of which there is the first.
abbrev prompted_world : World
prompted_world = record {
  tables = record small_tables { prompts = record { rows = one_prompt ∷ []; seq = 1 } };
  tick = 0;
}

abbrev synthesizer : Synthesizer
synthesizer = record {
  completer = λ n req. ok (codes "{}");
  registry = db_registry calm plain;
  codes_of = codes;
  parse_strict = λ text. ok (record {
    interactions =
        record { to_feature_id = 1; description = "uses" }
        ∷ record { to_feature_id = 9; description = "uses" }
        ∷ [];
  });
}

-- The second interaction fails, and the first stays.
stopped_synthesis :
    length
      (synthesize calm synthesizer one_feature one_feature
        prompted_world).1.tables.interactions.rows
    ≡ 1
unfolding synthesize prowiki.Store.Prompts.active prowiki.Store.Graph.create_interaction
stopped_synthesis = refl
