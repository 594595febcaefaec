-- ===== src/Store/Entities.antt =====
-- internal/store/entity_store.go: the rows of `entities`.
use prowiki.Base.{ℕ, Bool, ◌&&◌, String, str_eq, ◌==◌, if◌then◌else◌, exists_where}
use prowiki.Domain.Errors.{Error, ok, err}
use prowiki.Domain.Entities.{Entity}
use prowiki.Db.Schema.{insert, next_id, has_project}
use prowiki.Db.Io.{Env, Io, Query, statement}

-- The key of the UNIQUE index `uq_entities_project_name_type`.
abbrev pub is_same : ℕ → String → String → Entity → Bool
is_same project name entity_type e =
    (e.project_id == project) && (str_eq e.name name && str_eq e.entity_type entity_type)

unfoldable pub insert_entity : ℕ → String → String → String → Query ℕ
insert_entity project name entity_type description now t =
    if exists_where (is_same project name entity_type) t.entities.rows
    then err (Error.constraint "UNIQUE constraint failed")
    else if has_project t project
    then ok (
      next_id t.entities,
      record t {
        entities =
            insert
              (λ id. record {
                id = id;
                project_id = project;
                name = name;
                entity_type = entity_type;
                description = description;
                created_at = now;
                updated_at = now;
              })
              t.entities;
      },
    )
    else err (Error.constraint "FOREIGN KEY constraint failed")

-- `Create`, which sets `entity.ID`: the result is that id.
unfoldable pub create : Env → ℕ → String → String → String → Io ℕ
unfolding insert_entity statement
create env project name entity_type description =
    statement env (insert_entity project name entity_type description)
