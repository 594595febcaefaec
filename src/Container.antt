-- ===== src/Container.antt =====
-- internal/di/container.go: what `NewContainer` does to the database before it wires the components.
-- The dispatcher that it builds is `Handlers.Keeps.container_dispatch`.
pub mod Opened
use prowiki.Base.{ℕ, Bool, String, str_eq, Option, none, some, first_where, if◌then◌else◌}
use prowiki.Domain.Errors.{Error, Result, ok, err, panicked, is_no_rows}
use prowiki.Domain.Entities.{Project}
use prowiki.Db.Io.{Env, World, Io, Query, statement}
use prowiki.Store.Projects

abbrev pub has_name : String → Project → Bool
has_name name p = str_eq p.name name

-- `SELECT id, name FROM projects WHERE name = ?`, of which the first row is read.
unfoldable pub name_query : String → Query ℕ
name_query name now t = elim (first_where (has_name name) t.projects.rows) [
  | none ↦ err Error.no_rows
  | some p ↦ ok (p.id, t)
]

abbrev pub created : Result ℕ × World → Result ℕ × World
created (ok id, w) = (ok id, w)
created (err e, w) = (err (Error.wrapped "failed to create project" e), w)
created (panicked p, w) = (panicked p, w)

abbrev pub or_new : Env → String → Result ℕ × World → Result ℕ × World
or_new env name (ok id, w) = (ok id, w)
or_new env name (err e, w) =
    if is_no_rows e
    then created (Projects.create env name w)
    else (err (Error.wrapped "failed to load project" e), w)
or_new env name (panicked p, w) = (panicked p, w)

-- The id of the project that `NewContainer` works on, of the base name of its root.
unfoldable pub open_project : Env → String → Io ℕ
unfolding name_query statement Projects.create Projects.insert_project
open_project env name w = or_new env name (statement env (name_query name) w)
