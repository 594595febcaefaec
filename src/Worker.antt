-- ===== src/Worker.antt =====
-- internal/worker/daemon.go: the loop that claims jobs and has them processed. What is logged is not
-- modelled, and the sleep between two polls is no step of the database.
pub mod Keeps
pub mod Sound
pub mod Progress
pub mod Failing
pub mod Claiming
pub mod Retries
pub mod Services
use Prim.Native.String.{◌++◌}
use prowiki.Base.{ℕ, zero, suc, ◌+◌, leb, if◌then◌else◌, String, Option, some, none, List, [], ◌∷◌}
use prowiki.Domain.Errors.{Error, Result, ok, err, panicked, error_text}
use prowiki.Domain.Entities.{Job}
use prowiki.Db.Io.{Env, World, Io, pure, ◌>>=◌, ◌>>◌}
use prowiki.Txn.{TxFunc}
use prowiki.Queue

-- `Dispatcher.Dispatch`
abbrev pub Dispatch : Type 0
Dispatch = Job → Io TxFunc

-- `_ = call`: the error is dropped, and a panic is not.
abbrev dropped : {A : Type 0} → Result A × World → Result (Unit {0}) × World
dropped (ok a, w) = (ok tt, w)
dropped (err e, w) = (ok tt, w)
dropped (panicked p, w) = (panicked p, w)

abbrev fail_dropped : Env → Job → String → Io (Unit {0})
fail_dropped env job payload w = dropped (Queue.fail env job.id payload w)

abbrev completed : Env → Job → Result (Unit {0}) × World → Result (Unit {0}) × World
completed env job (ok u, w) = (ok tt, w)
completed env job (err e, w) = fail_dropped env job ("completion error: " ++ error_text e) w
completed env job (panicked p, w) = (panicked p, w)

abbrev dispatched : Env → Job → Result TxFunc × World → Result (Unit {0}) × World
dispatched env job (ok fn, w) = completed env job (Queue.complete env job.id (some fn) w)
dispatched env job (err e, w) = fail_dropped env job (error_text e) w
dispatched env job (panicked p, w) = (panicked p, w)

-- The deferred function.
abbrev recovered : Env → Job → Result (Unit {0}) × World → Result (Unit {0}) × World
recovered env job (ok u, w) = (ok tt, w)
recovered env job (err e, w) = (err e, w)
recovered env job (panicked p, w) = fail_dropped env job ("panic: " ++ p) w

-- In seconds, as the clock.
abbrev pub cleanup_timeout : ℕ
cleanup_timeout = 5

-- What `cleanupCtx` makes of the database, where it was made at the given time: a call of it that comes
-- too late fails.
abbrev pub cleanup : Env → ℕ → Env
cleanup env made = record env {
  fault = λ n.
      if leb (made + cleanup_timeout) (env.clock n)
      then some "context deadline exceeded"
      else env.fault n;
}

-- The calls of the queue with `cleanupCtx`.
abbrev settled_by : Env → Dispatch → Job → Io (Unit {0})
settled_by c dispatch job w = recovered c job (dispatched c job (dispatch job w))

-- `processJobSafe`: the time of `cleanupCtx` runs from before the call of the dispatcher.
unfoldable pub process_job_safe : Env → Dispatch → Job → Io (Unit {0})
process_job_safe env dispatch job w = settled_by (cleanup env (env.clock w.tick)) dispatch job w

unfoldable pub process_jobs : Env → Dispatch → List Job → Io (Unit {0})
unfolding process_job_safe
process_jobs env dispatch [] = pure tt
process_jobs env dispatch (job ∷ jobs) =
    process_job_safe env dispatch job >> process_jobs env dispatch jobs

abbrev pub batch_limit : ℕ
batch_limit = 10

-- A failed claim ends the batch, and so does a panic; both are logged.
abbrev logged : Result (Unit {0}) × World → Result (Unit {0}) × World
logged (r, w) = (ok tt, w)

-- `processBatch`
unfoldable pub process_batch : Env → Dispatch → Io (Unit {0})
unfolding process_jobs
process_batch env dispatch w =
    logged ((Queue.claim_batch env batch_limit >>= process_jobs env dispatch) w)

-- `Start`, for the number of polls until the context is cancelled.
unfoldable pub start : ℕ → Env → Dispatch → Io (Unit {0})
unfolding process_batch
start zero env dispatch = pure tt
start (suc polls) env dispatch = process_batch env dispatch >> start polls env dispatch
