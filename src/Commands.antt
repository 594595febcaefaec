-- ===== src/Commands.antt =====
-- internal/cli/ingest.go, daemon.go and init.go: what the commands do with the container, in the order
-- of their calls. cobra and viper choose the command and the directory; what is printed is left out.
pub mod Unharmed
use prowiki.Base.{ℕ, String, Option, Bytes}
use prowiki.Domain.Errors.{Error, Result, ok, err, panicked}
use prowiki.Db.Io.{Env, World, Io, lift, ◌>>=◌, ◌>>◌}
use prowiki.Handlers.Parse.{wrapped_call}
use prowiki.Migrate.{Driver, Outcome, open_database, up}
use prowiki.Container.{open_project}
use prowiki.Scanner.{Scan, Node}
use prowiki.Worker.{Dispatch, start}
use prowiki.Ingest.{Service}
use prowiki.Ingest.Walked.{run_walk}

-- `filepath.Abs` of the directory, `filepath.Base`, and what database/sql answers when the file of the
-- database is opened.
pub record Setting : Type 0 where
  pub absolute : Result String
  pub base_name : String → String
  pub driver : Driver

-- `NewContainer`, up to the wiring: the id of the project.
unfoldable pub new_container : Env → Setting → String → Io ℕ
unfolding open_database open_project
new_container env c root =
    wrapped_call "failed to open database" (lift (open_database c.driver).0)
    >> open_project env (c.base_name root)

-- The command `ingest`, over the service that the container builds for the project, and the tree of
-- directories at its root.
unfoldable pub ingest_command :
    Env → Setting → (String → ℕ → Service) → (String → Scan) → (String → Node) → Io (Unit {0})
unfolding new_container run_walk
ingest_command env c service scan tree = do
  root ← lift c.absolute
  project ← new_container env c root
  wrapped_call "ingestion failed" (run_walk env (service root project) (scan root) (tree root))

-- The command `daemon`, for the number of polls until the context is cancelled.
unfoldable pub daemon_command : ℕ → Env → Setting → Dispatch → Io (Unit {0})
unfolding new_container start
daemon_command polls env c dispatch = do
  root ← lift c.absolute
  project ← new_container env c root
  start polls env dispatch

-- The command `init`, of what golang-migrate answers.
unfoldable pub init_command : Setting → Result (Unit {0}) → Outcome → Io (Unit {0})
unfolding open_database
init_command c made outcome = do
  root ← lift c.absolute
  opened ← wrapped_call "failed to create db" (lift (open_database c.driver).0)
  wrapped_call "migration failed" (lift (up made outcome))
