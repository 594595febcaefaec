-- ===== src/Container/Opened.antt =====
-- internal/di/container.go: a root has one project, however often it is opened.
use prowiki.Base.{
  ℕ, suc, ◌+◌, ◌≡◌, refl, true, first_where, first_where-append, first_where-found, Option, none,
  some, String, eq_refl,
}
use prowiki.Domain.Errors.{Result, ok}
use prowiki.Domain.Entities.{Project}
use prowiki.Db.Schema.{Tables}
use prowiki.Db.Io.{Env, World, statement, attempt, later}
use prowiki.Txn.Atomic.{AllOrNothing}
use prowiki.Store.Projects
use prowiki.Store.Projects.{project_row, insert_project}
use prowiki.Container.{has_name, name_query, open_project, or_new, created}

-- The id is that of a project of the name, and the SELECT gives it from now on.
abbrev pub IsOpened : String → ℕ → Tables → Type 0
IsOpened name id t =
    ((p : Project) × (first_where (has_name name) t.projects.rows ≡ some p)
      × (p.id ≡ id)
      × (has_name name p ≡ true))
    × ((now : ℕ) → name_query name now t ≡ ok (id, t))

module _ (env : Env) (name : String) (w : World) where
  abbrev Opens : Result ℕ × World → Type 0
  Opens x = AllOrNothing w x (λ id w'. IsOpened name id w'.tables)

  inserted :
      (o : Option String) (now tick : ℕ)
      → first_where (has_name name) w.tables.projects.rows ≡ none
      → Opens (created (attempt o (insert_project name now w.tables) (record w { tick = tick })))
  unfolding insert_project name_query
  inserted (some s) now tick e = refl
  inserted none now tick e =
      let new = project_row now name (suc w.tables.projects.seq) in
      let found = first_where-append (has_name name) w.tables.projects.rows new e (eq_refl name) in
      ((new, found, refl, eq_refl name), λ later_on. rw (found, name_query) refl)

  selected :
      (o : Option String) (x : Option Project)
      → first_where (has_name name) w.tables.projects.rows ≡ x
      → Opens (or_new env name (attempt o (name_query name (env.clock w.tick) w.tables) (later w)))
  unfolding statement name_query Projects.create
  selected (some s) x e = refl
  selected none (some p) e =
      rw (e, name_query)
        (
          (p, e, refl, first_where-found (has_name name) w.tables.projects.rows p e),
          λ now. rw (e, name_query) refl,
        )
  selected none none e =
      rw (e, name_query)
        (inserted (env.fault (w.tick + 1)) (env.clock (w.tick + 1)) (w.tick + 1 + 1) e)

  -- `NewContainer`, whichever calls fail: either no table changes, or the id that it goes on with is
  -- that of a project of the root's name, and each later start finds the same id, until another
  -- writer changes the projects.
  pub open_project-IsOpened : Opens (open_project env name w)
  unfolding open_project statement
  open_project-IsOpened =
      selected (env.fault w.tick) (first_where (has_name name) w.tables.projects.rows) refl
