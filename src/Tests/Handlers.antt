-- ===== src/Tests/Handlers.antt =====
-- The theorems on the handlers, on a small database.
use prowiki.Base.{arith, ◌∷◌, ℕ, suc, ◌<◌, ◌≡◌, refl, some, none, List, [], codes, Bytes}
use prowiki.Domain.Errors.{Result, ok}
use prowiki.Domain.Enums.{pending, failed}
use prowiki.Domain.Entities.{PromptTemplate}
use prowiki.Queue.Life.{life}
use prowiki.Store.Jobs.Sound.{IsSound}
use prowiki.Worker.{start}
use prowiki.Llm.Request.{Completer}
use prowiki.Handlers.{dispatch}
use prowiki.Handlers.Parse.{ParseResult, write_result}
use prowiki.Txn.Atomic.{AllOrNothing}
use prowiki.Queue.{complete}
use prowiki.Handlers.Repeated.{repeated_never_completes}
use prowiki.Handlers.Unknown.{is_unhandled, unhandled_job_dies}
use prowiki.Worker.Failing.{IsFit}
use prowiki.Handlers.Keeps.{container_dispatch}
use prowiki.Handlers.Sound.{parse_daemon-IsSound}
use prowiki.Handlers.Refines.{parse_daemon_refines}
use prowiki.Queue.Phases.{Moved}
use prowiki.Tests.Samples.{small_world, calm, shaky}
use prowiki.Tests.Queue.{life_of_first, waiting_world, seconds-IsBrisk, small_tables-IsSound}

waiting-IsFit : IsFit is_unhandled waiting_world.tables.jobs.rows
waiting-IsFit = record {
  distinct = ((refl, tt), (tt, tt));
  each = (refl, (refl, tt));
  few = omega arith;
}

unhandled_job_dies_example :
    ((n : ℕ)
      → n < 3
      → life 1 (start (suc n) calm (dispatch none) waiting_world).1.tables ≡ some (pending, suc n))
    × (life 1 (start 4 calm (dispatch none) waiting_world).1.tables ≡ some (failed, 3))
unhandled_job_dies_example =
    unhandled_job_dies (λ n. n) (λ jobs. jobs) none 1 waiting_world seconds-IsBrisk (λ p js. refl)
      waiting-IsFit life_of_first

abbrev answers : Completer
answers n req = ok (codes "{}")

abbrev plain : PromptTemplate → List Bytes → Result Bytes
plain template vars = ok (codes "Summarise.")

abbrev summary_only : Bytes → Result ParseResult
summary_only text = ok (record { summary = "a file"; features = [] })

parse_daemon-IsSound_example :
    IsSound
      (start 4 shaky (container_dispatch shaky answers plain summary_only) small_world).1.tables
parse_daemon-IsSound_example =
    parse_daemon-IsSound shaky answers plain summary_only 4 small_world small_tables-IsSound

-- The small database has a feature of this name.
abbrev repeats : ParseResult
repeats = record {
  summary = "a file";
  features = record { name = "parsing"; description = "again" } ∷ [];
}

repeated_never_completes_example :
    AllOrNothing small_world
      (complete calm 3 (some (write_result calm 1 1 repeats)) small_world)
      (λ _ _. ⊥)
repeated_never_completes_example = repeated_never_completes calm 1 1 repeats 3 small_world refl

parse_daemon_refines_example :
    Moved small_world.tables
      (start 4 shaky (container_dispatch shaky answers plain summary_only) small_world).1.tables
parse_daemon_refines_example =
    parse_daemon_refines shaky answers plain summary_only 4 small_world small_tables-IsSound
