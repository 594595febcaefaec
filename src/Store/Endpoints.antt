-- ===== src/Store/Endpoints.antt =====
-- internal/store/api_endpoint_store.go: the rows of `api_endpoints`.
use prowiki.Base.{ℕ, String, if◌then◌else◌}
use prowiki.Domain.Errors.{Error, ok, err}
use prowiki.Db.Schema.{insert, next_id, has_project}
use prowiki.Db.Io.{Env, Io, Query, statement}

unfoldable pub insert_endpoint : ℕ → String → String → String → Query ℕ
insert_endpoint project path method description now t =
    if has_project t project
    then ok (
      next_id t.endpoints,
      record t {
        endpoints =
            insert
              (λ id. record {
                id = id;
                project_id = project;
                path = path;
                method = method;
                description = description;
                created_at = now;
                updated_at = now;
              })
              t.endpoints;
      },
    )
    else err (Error.constraint "FOREIGN KEY constraint failed")

-- `Create`, which sets `endpoint.ID`: the result is that id.
unfoldable pub create : Env → ℕ → String → String → String → Io ℕ
unfolding insert_endpoint statement
create env project path method description =
    statement env (insert_endpoint project path method description)
