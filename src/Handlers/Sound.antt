-- ===== src/Handlers/Sound.antt =====
-- internal/handlers: the daemon that internal/di/container.go puts together keeps the invariant of the
-- queue.
use prowiki.Base.{ℕ, List, Bytes}
use prowiki.Domain.Errors.{Result}
use prowiki.Domain.Entities.{PromptTemplate}
use prowiki.Db.Io.{Env, World}
use prowiki.Store.Jobs.Sound.{IsSound}
use prowiki.Llm.Request.{Completer}
use prowiki.Worker.{start}
use prowiki.Worker.Sound.{IsSound-rules, start-IsSound}
use prowiki.Handlers.Parse.{ParseResult}
use prowiki.Handlers.Keeps.{container_dispatch, container_dispatch-IsTame}

-- The daemon with the dispatcher and the handler of the stage `PARSE` and the prompts of the database,
-- for every model, template engine and parser of answers, however many polls it makes and whichever
-- calls of the database fail: it keeps the invariant of the queue.
pub parse_daemon-IsSound :
    (env : Env) (completer : Completer) (template : PromptTemplate → List Bytes → Result Bytes)
    (parse_strict : Bytes → Result ParseResult) (polls : ℕ) (w : World)
    → IsSound w.tables
    → IsSound (start polls env (container_dispatch env completer template parse_strict) w).1.tables
parse_daemon-IsSound env completer template parse_strict polls w h =
    start-IsSound env (container_dispatch env completer template parse_strict)
      (container_dispatch-IsTame env IsSound (IsSound-rules env) completer template parse_strict)
      polls w h
