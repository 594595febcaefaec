-- ===== src/Handlers.antt =====
-- internal/handlers/dispatcher.go: the dispatcher that internal/di/container.go gives the daemon.
pub mod Asked
pub mod Parse
pub mod Unknown
pub mod Idle
pub mod Keeps
pub mod Sound
pub mod Refines
pub mod Repeated
use Prim.Native.String.{◌++◌}
use prowiki.Base.{String, Option, some, none, if◌then◌else◌, str_eq}
use prowiki.Domain.Errors.{Error}
use prowiki.Domain.Enums.{Stage}
use prowiki.Domain.Entities.{Job}
use prowiki.Db.Io.{Io, pure, raise}
use prowiki.Txn.{TxFunc}
use prowiki.Worker.{Dispatch}

abbrev pub stage_parse : Stage
stage_parse = "PARSE"

abbrev run_parse : Option Dispatch → Dispatch
run_parse none job = raise (Error.message ("no handler registered for stage: " ++ job.stage))
run_parse (some handler) job = handler job

-- `Dispatcher.Dispatch`; the handler is nil or a function.
unfoldable pub dispatch : Option Dispatch → Dispatch
dispatch handler job =
    if str_eq job.stage stage_parse
    then run_parse handler job
    else raise (Error.message ("unknown job stage: " ++ job.stage))

-- `NoOpHandler`
unfoldable pub no_op_handler : Dispatch
no_op_handler job = pure (pure tt)
