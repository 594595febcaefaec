-- ===== src/Tests/Setup.antt =====
-- Metrics, the opening of the database, the application and the level of the log.
use prowiki.Base.{
  ℕ, ◌≡◌, refl, ◌⊎◌, true, false, String, str_eq, List, [], ◌∷◌, Option, none, some, Bytes,
  bytes_eq, codes, if◌then◌else◌,
}
use prowiki.Domain.Errors.{Error, ok}
use prowiki.Domain.Enums.{JobStatus, job_status_text}
use prowiki.Metrics.{Registry, new_registry, gauge, set_queue_depth}
use prowiki.Metrics.Depth.{depth_after, set_queue_depth_lem}
use prowiki.Migrate.{Driver, open_database}
use prowiki.Migrate.Opened.{IsOpenOrClosed, open_database-IsOpenOrClosed}
use prowiki.Cli.{run, classify, plain, unknown_command, version_line, usage}
use prowiki.Cli.Outcomes.{run_lem}
use prowiki.Logger.{level_from_env, warn}
use prowiki.Config.{defaults, load}
use prowiki.Tests.Samples.{calm, small_world}

-- Two jobs failed some time ago.
abbrev shown_before : Registry
shown_before = record new_registry { queue_depth = ("failed", 2) ∷ [] }

set_queue_depth_lem_example :
    ((s : JobStatus)
      → gauge (job_status_text s) (set_queue_depth calm shown_before small_world).0.queue_depth
        ≡ depth_after s small_world.tables shown_before)
    × ((set_queue_depth calm shown_before small_world).1.tables ≡ small_world.tables)
    × ((set_queue_depth calm shown_before small_world).0.jobs_total ≡ shown_before.jobs_total)
    × ((set_queue_depth calm shown_before small_world).0.llm_requests ≡ shown_before.llm_requests)
set_queue_depth_lem_example = set_queue_depth_lem calm shown_before small_world refl

-- No job is failed any more, and the gauge still says two.
stale_gauge : gauge "failed" (set_queue_depth calm shown_before small_world).0.queue_depth ≡ 2
unfolding set_queue_depth prowiki.Metrics.depth_query prowiki.Db.Io.statement gauge
    prowiki.Metrics.set_all prowiki.Metrics.set_gauge job_status_text
stale_gauge = refl

-- The database cannot be locked on the connection that the third statement is given.
abbrev locked : ℕ → String → Option Error
locked c s = if str_eq s "PRAGMA foreign_keys=ON;" then some (Error.foreign "locked") else none

abbrev locked_driver : Driver
locked_driver = record { pick = λ n. 1; exec = locked; refusal = none }

open_database-IsOpenOrClosed_example : IsOpenOrClosed locked_driver (open_database locked_driver)
open_database-IsOpenOrClosed_example = open_database-IsOpenOrClosed locked_driver

abbrev no_args : List Bytes
no_args = []

run_lem_example :
    ((run no_args).failure ≡ none
      → ((run no_args).lines ≡ version_line ∷ []) ⊎ ((run no_args).lines ≡ usage ∷ []))
    × ((command : Bytes)
        → classify command ≡ plain
        → bytes_eq command (codes "help") ≡ false
        → (run (command ∷ no_args)).failure ≡ some (unknown_command command))
run_lem_example = run_lem no_args

version : (run (codes "--version" ∷ [])).lines ≡ version_line ∷ []
unfolding run classify prowiki.Cli.split_value prowiki.Cli.parse_flags bytes_eq
version = refl

shouted : level_from_env (codes " Warning ") ≡ warn
unfolding level_from_env
shouted = refl

valid_defaults : load (λ s. true) (ok defaults) ≡ ok defaults
unfolding load
valid_defaults = refl
