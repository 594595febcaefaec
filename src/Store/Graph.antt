-- ===== src/Store/Graph.antt =====
-- internal/store/graph_store.go: the interactions of features and their traversal.
pub mod Reach
use prowiki.Base.{
  ℕ, zero, suc, Bool, true, false, ◌&&◌, String, List, [], ◌∷◌, ◌++◌, map, select, exists_where,
  ◌==◌, if◌then◌else◌,
}
use prowiki.Domain.Errors.{Error, Result, ok, err}
use prowiki.Domain.Entities.{Feature, FeatureInteraction}
use prowiki.Db.Schema.{Tables, has_feature, insert, next_id}
use prowiki.Db.Io.{Env, Io, Query, statement}

abbrev pub interaction_row : ℕ → ℕ → ℕ → String → ℕ → FeatureInteraction
interaction_row now from to description id = record {
  id = id;
  from_feature_id = from;
  to_feature_id = to;
  description = description;
  created_at = now;
}

unfoldable pub insert_interaction : ℕ → ℕ → String → Query ℕ
insert_interaction from to description now t =
    if has_feature t from && has_feature t to
    then ok (
      next_id t.interactions,
      record t { interactions = insert (interaction_row now from to description) t.interactions },
    )
    else err (Error.constraint "FOREIGN KEY constraint failed")

-- `CreateInteraction`, which sets `interaction.ID`: the result is that id.
unfoldable pub create_interaction : Env → ℕ → ℕ → String → Io ℕ
unfolding insert_interaction statement
create_interaction env from to description = statement env (insert_interaction from to description)

-- The rows of depth 1: an interaction whose `from` is a feature of the project. Ids of features are
-- unique, so that the join gives no interaction twice.
unfoldable pub starts : ℕ → List Feature → List FeatureInteraction → List ℕ
starts project features interactions =
    map (λ (i : FeatureInteraction). i.from_feature_id)
      (select
        (λ (i : FeatureInteraction).
          exists_where (λ (f : Feature). (f.id == i.from_feature_id) && (f.project_id == project))
            features)
        interactions)

unfoldable pub targets : List FeatureInteraction → ℕ → List ℕ
targets interactions id =
    map (λ (i : FeatureInteraction). i.to_feature_id)
      (select (λ (i : FeatureInteraction). i.from_feature_id == id) interactions)

-- The rows that the recursive SELECT gives for rows of one depth.
unfoldable pub next_depth : List FeatureInteraction → List ℕ → List ℕ
unfolding targets
next_depth interactions [] = []
next_depth interactions (id ∷ ids) = targets interactions id ++ next_depth interactions ids

-- `UNION ALL` of the rows of a depth and of so many further depths.
unfoldable pub depths : ℕ → List FeatureInteraction → List ℕ → List ℕ
unfolding next_depth
depths zero interactions ids = ids
depths (suc n) interactions ids = ids ++ depths n interactions (next_depth interactions ids)

abbrev pub is_in : ℕ → List ℕ → Bool
is_in id ids = exists_where (λ (other : ℕ). other == id) ids

-- `SELECT DISTINCT`
unfoldable pub distinct : List ℕ → List ℕ
distinct [] = []
distinct (id ∷ ids) = let rest = distinct ids in if is_in id rest then rest else id ∷ rest

-- `fp.depth < 7`: six depths after the first.
abbrev pub further_depths : ℕ
further_depths = 6

unfoldable pub pipelines_query : ℕ → Query (List ℕ)
unfolding starts depths distinct
pipelines_query project now t = ok (
  distinct (
      depths further_depths t.interactions.rows
        (starts project t.features.rows t.interactions.rows)),
  t,
)

-- `DiscoverMacroPipelines`
unfoldable pub discover_macro_pipelines : Env → ℕ → Io (List ℕ)
unfolding pipelines_query statement
discover_macro_pipelines env project = statement env (pipelines_query project)
