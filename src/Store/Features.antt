-- ===== src/Store/Features.antt =====
-- internal/store/feature_store.go: the rows of `features` and `file_features`.
use prowiki.Base.{
  ℕ, Bool, ◌&&◌, ltb, String, str_eq, List, [], ◌∷◌, select, exists_where, ◌==◌, if◌then◌else◌,
}
use prowiki.Domain.Errors.{Error, ok, err}
use prowiki.Domain.Entities.{Feature}
use prowiki.Db.Schema.{insert, next_id, has_project}
use prowiki.Db.Io.{Env, Io, Query, statement}
use prowiki.Store.Versions.{is_junction, is_linkable, link}

abbrev pub feature_row : ℕ → ℕ → String → String → ℕ → Feature
feature_row now project name description id = record {
  id = id;
  project_id = project;
  name = name;
  description = description;
  created_at = now;
  updated_at = now;
}

-- The key of the UNIQUE index `uq_features_project_name`.
abbrev pub is_named : ℕ → String → Feature → Bool
is_named project name f = (f.project_id == project) && str_eq f.name name

unfoldable pub insert_feature : ℕ → String → String → Query ℕ
insert_feature project name description now t =
    if exists_where (is_named project name) t.features.rows
    then err (Error.constraint "UNIQUE constraint failed")
    else if has_project t project
    then ok (
      next_id t.features,
      record t { features = insert (feature_row now project name description) t.features },
    )
    else err (Error.constraint "FOREIGN KEY constraint failed")

-- `Create`, which sets `feature.ID`: the result is that id.
unfoldable pub create : Env → ℕ → String → String → Io ℕ
unfolding insert_feature statement
create env project name description = statement env (insert_feature project name description)

unfoldable pub link_feature : ℕ → ℕ → Query (Unit {0})
link_feature version feature now t =
    if exists_where (is_junction version feature) t.file_features
    then ok (tt, t)
    else if is_linkable t version feature
    then ok (tt, link version feature t)
    else err (Error.constraint "FOREIGN KEY constraint failed")

-- `AddToFileVersion`: ON CONFLICT DO NOTHING.
unfoldable pub add_to_file_version : Env → ℕ → ℕ → Io (Unit {0})
unfolding link_feature statement
add_to_file_version env version feature = statement env (link_feature version feature)

-- `ORDER BY created_at DESC`
unfoldable pub insert_newest : Feature → List Feature → List Feature
insert_newest f [] = f ∷ []
insert_newest f (g ∷ gs) =
    let rest = insert_newest f gs in if ltb f.created_at g.created_at then g ∷ rest else f ∷ g ∷ gs

unfoldable pub order_newest : List Feature → List Feature
order_newest [] = []
order_newest (f ∷ fs) = insert_newest f (order_newest fs)

unfoldable pub features_query : ℕ → Query (List Feature)
features_query project now t =
    ok (order_newest (select (λ (f : Feature). f.project_id == project) t.features.rows), t)

-- `GetByProjectID`
unfoldable pub get_by_project_id : Env → ℕ → Io (List Feature)
unfolding features_query order_newest insert_newest statement
get_by_project_id env project = statement env (features_query project)
