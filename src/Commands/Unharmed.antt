-- ===== src/Commands/Unharmed.antt =====
-- internal/cli/ingest.go and daemon.go: the commands keep what their components keep.
use prowiki.Base.{ℕ, ◌+◌, ◌≡◌, refl, String, List, Option, none, some, Bytes, first_where}
use prowiki.Domain.Errors.{Result, ok, err, panicked}
use prowiki.Domain.Entities.{Project, PromptTemplate}
use prowiki.Db.Schema.{Table, Tables}
use prowiki.Db.Io.{Env, World, Io, statement, attempt, later}
use prowiki.Db.Keeps.{Keeps, Keeps-lift, Keeps-bind}
use prowiki.Handlers.Parse.{ParseResult, wrapped_call, wrapping}
use prowiki.Handlers.Keeps.{container_dispatch}
use prowiki.Handlers.Sound.{parse_daemon-IsSound}
use prowiki.Llm.Request.{Completer}
use prowiki.Store.Projects
use prowiki.Store.Projects.{insert_project}
use prowiki.Store.Jobs.Sound.{IsSound}
use prowiki.Container.{has_name, name_query, open_project, or_new, created}
use prowiki.Ingest.{Service}
use prowiki.Ingest.Current.{IsCurrent}
use prowiki.Ingest.Single.{run-IsCurrent}
use prowiki.Scanner.{Scan, Node}
use prowiki.Commands.{Setting, new_container, ingest_command, daemon_command}

module _ (P : Tables → Type 0)
    (stable : (t : Tables) (ps : Table Project) → P t → P (record t { projects = ps })) where
  module _ (env : Env) (name : String) (w : World) (h : P w.tables) where
    created_keeps :
        (o : Option String) (now tick : ℕ)
        → P
            (created
              (attempt o (insert_project name now w.tables) (record w { tick = tick }))).1.tables
    unfolding insert_project
    created_keeps (some s) now tick = h
    created_keeps none now tick = stable w.tables _ h

    selected_keeps :
        (o : Option String) (x : Option Project)
        → first_where (has_name name) w.tables.projects.rows ≡ x
        → P
            (or_new env name
              (attempt o (name_query name (env.clock w.tick) w.tables) (later w))).1.tables
    unfolding statement name_query Projects.create
    selected_keeps (some s) x e = h
    selected_keeps none (some p) e = rw (e, name_query) h
    selected_keeps none none e =
        rw (e, name_query)
          (created_keeps (env.fault (w.tick + 1)) (env.clock (w.tick + 1)) (w.tick + 1 + 1))

  open_project-Keeps : (env : Env) (name : String) → Keeps P (open_project env name)
  unfolding open_project statement
  open_project-Keeps env name = record {
    at = λ w h. selected_keeps env name w h (env.fault w.tick) _ refl;
  }

  wrapped_call-Keeps : {A : Type 0} (s : String) (m : Io A) → Keeps P m → Keeps P (wrapped_call s m)
  wrapped_call-Keeps s m k = record { at = λ w h. outside (m w) (k.at w h) }
    where
      outside : {A : Type 0} (x : Result A × World) → P x.1.tables → P (wrapping s x).1.tables
      outside (ok a, w) h = h
      outside (err e, w) h = h
      outside (panicked p, w) h = h

  new_container-Keeps :
      (env : Env) (c : Setting) (root : String) → Keeps P (new_container env c root)
  unfolding new_container
  new_container-Keeps env c root =
      Keeps-bind _ _ (wrapped_call-Keeps _ _ (Keeps-lift _))
        (λ _. open_project-Keeps env (c.base_name root))

-- The command `ingest`, whichever calls fail, also those that open the database: each version has an
-- issued id and each file at most one latest version afterwards, if that was so before.
pub ingest_command-IsCurrent :
    (env : Env) (c : Setting) (service : String → ℕ → Service) (scan : String → Scan)
    (tree : String → Node) (w : World)
    → IsCurrent w.tables
    → IsCurrent (ingest_command env c service scan tree w).1.tables
unfolding ingest_command prowiki.Ingest.Walked.run_walk
ingest_command-IsCurrent env c service scan tree w h =
    (Keeps-bind {P = IsCurrent} _ _ (Keeps-lift c.absolute) λ root.
        Keeps-bind _ _ (new_container-Keeps IsCurrent (λ t ps h. h) env c root) λ project.
          wrapped_call-Keeps IsCurrent (λ t ps h. h) "ingestion failed" _
            (record { at = λ v k. run-IsCurrent env (service root project) _ _ v k })).at
      w h

-- The command `daemon` keeps the invariant of the queue, however many polls it makes.
pub daemon_command-IsSound :
    (polls : ℕ) (env : Env) (c : Setting) (completer : Completer)
    (template : PromptTemplate → List Bytes → Result Bytes)
    (parse_strict : Bytes → Result ParseResult) (w : World)
    → IsSound w.tables
    → IsSound
        (daemon_command polls env c
          (container_dispatch env completer template parse_strict)
          w).1.tables
unfolding daemon_command
daemon_command-IsSound polls env c completer template parse_strict w h =
    (Keeps-bind {P = IsSound} _ _ (Keeps-lift c.absolute) λ root.
        Keeps-bind _ _ (new_container-Keeps IsSound (λ t ps h. h) env c root) λ project. record {
          at = λ v k. parse_daemon-IsSound env completer template parse_strict polls v k;
        }).at
      w h
