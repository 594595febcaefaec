-- ===== src/Graph/Written.antt =====
-- internal/app/graph/synthesizer.go: the interactions that a synthesis leaves, also where it stops.
use prowiki.Base.{suc, ◌++◌, ℕ, [], ◌∷◌}
use prowiki.Db.Schema.{Tables}
use prowiki.Store.Graph
use prowiki.Store.Graph.{interaction_row}
use prowiki.Graph.{Interaction}

-- The tables with one more interaction, from a feature to the one that the answer names.
abbrev pub with_interaction : ℕ → Interaction → ℕ → Tables → Tables
with_interaction from i now t = record t {
  interactions = record {
    rows =
        t.interactions.rows
        ++ record {
          id = suc t.interactions.seq;
          from_feature_id = from;
          to_feature_id = i.to_feature_id;
          description = i.description;
          created_at = now;
        }
          ∷ [];
    seq = suc t.interactions.seq;
  };
}
