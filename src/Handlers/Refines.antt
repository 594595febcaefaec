-- ===== src/Handlers/Refines.antt =====
-- internal/di/container.go: the daemon with the handler of the stage `PARSE` refines the machine of the
-- phases of a job.
use prowiki.Base.{ℕ, List, Bytes}
use prowiki.Domain.Errors.{Result}
use prowiki.Domain.Entities.{PromptTemplate}
use prowiki.Db.Io.{Env, World}
use prowiki.Store.Jobs.Sound.{IsSound}
use prowiki.Llm.Request.{Completer}
use prowiki.Worker.{start}
use prowiki.Worker.Keeps.{start-Keeps}
use prowiki.Queue.Phases.{here, Moved}
use prowiki.Queue.Phases.Kept.{HasMoved, HasMoved-rules}
use prowiki.Handlers.Parse.{ParseResult}
use prowiki.Handlers.Keeps.{container_dispatch, container_dispatch-IsTame}

-- The daemon with the dispatcher and the handler of the stage `PARSE`, for every model, template engine
-- and parser of answers, however many polls it makes and whichever calls of the database fail: if the
-- invariant of the queue holds at the start, the row of each job went through moves of the machine
-- alone. A job is born pending with no retries, under an id that was never issued; from pending it is
-- claimed; from below three retries it becomes pending with one more; from three on it becomes failed;
-- or its row is removed, after which no move leads on.
pub parse_daemon_refines :
    (env : Env) (completer : Completer) (template : PromptTemplate → List Bytes → Result Bytes)
    (parse_strict : Bytes → Result ParseResult) (polls : ℕ) (w : World)
    → IsSound w.tables
    → Moved w.tables
        (start polls env (container_dispatch env completer template parse_strict) w).1.tables
parse_daemon_refines env completer template parse_strict polls w h =
    let P = HasMoved w.tables in
    let rules = HasMoved-rules w.tables in
    ((start-Keeps env P rules (container_dispatch env completer template parse_strict)
        (container_dispatch-IsTame env P (rules env) completer template parse_strict) polls).at
      w (h, λ id. here)).1
