-- ===== src/Handlers/Unknown.antt =====
-- internal/handlers/dispatcher.go with internal/worker/daemon.go: jobs of a stage without a handler.
use Prim.Native.String.{◌++◌}
use prowiki.Base.{ℕ, suc, ◌<◌, ◌≡◌, Bool, true, not, str_eq, String, Option, some, List, arith}
use prowiki.Domain.Errors.{Error, err}
use prowiki.Domain.Enums.{pending, failed}
use prowiki.Domain.Entities.{Job}
use prowiki.Db.Io.{World, reliable}
use prowiki.Queue.Life.{life}
use prowiki.Worker.{Dispatch, start}
use prowiki.Worker.Failing.{IsFit, IsBrisk}
use prowiki.Worker.Retries.{IsArranging, failing_job_dies}
use prowiki.Handlers.{dispatch}

-- The dispatcher knows the stage PARSE alone.
abbrev pub is_unhandled : String → Bool
is_unhandled stage = not (str_eq stage "PARSE")

dispatch-unknown :
    (handler : Option Dispatch) (job : Job) (w : World)
    → is_unhandled job.stage ≡ true
    → dispatch handler job w ≡ (err (Error.message ("unknown job stage: " ++ job.stage)), w)
unfolding dispatch
dispatch-unknown handler job w h = ground (arith, h)

-- The daemon with the dispatcher of the container, whatever its handler is, over a queue of at most ten
-- jobs with unique ids of which none has the stage PARSE, where no call of the database fails by
-- itself, five calls in a row take less than five seconds and RETURNING gives each row once: a job that
-- is pending and was never retried is pending with one more retry after each of the first three polls,
-- and failed after the fourth.
pub unhandled_job_dies :
    (clock : ℕ → ℕ) (arrange : List Job → List Job) (handler : Option Dispatch) (id : ℕ) (w : World)
    → IsBrisk clock
    → IsArranging arrange
    → IsFit is_unhandled w.tables.jobs.rows
    → life id w.tables ≡ some (pending, 0)
    → ((n : ℕ)
        → n < 3
        → life id (start (suc n) (reliable clock arrange) (dispatch handler) w).1.tables
          ≡ some (pending, suc n))
      × (life id (start 4 (reliable clock arrange) (dispatch handler) w).1.tables
          ≡ some (failed, 3))
unhandled_job_dies clock arrange handler id w brisk arranging fit first =
    failing_job_dies clock arrange brisk arranging (dispatch handler) is_unhandled
      (λ job. Error.message ("unknown job stage: " ++ job.stage))
      (λ job v h. dispatch-unknown handler job v h) id w fit first
