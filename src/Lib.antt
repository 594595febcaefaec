-- ===== src/Lib.antt =====
-- ProWiki (https://github.com/andrejsstepanovs/prowiki): a daemon that takes the files of a project
-- into an SQLite database and has a language model summarise them. An ingestion stores a version of
-- each file and enqueues a job for each structure that is new; the daemon claims jobs in batches,
-- hands each to a dispatcher, and completes it in one transaction with what the handler writes, or
-- counts a failure. This library models the database with its stores, the queue, the daemon, the
-- ingestion with its parser, the handlers and services that ask a model, and the client of the model.
--
-- The parts, with the code they stand for:
--
-- - Base: Booleans, lists and byte strings over the native numbers, for all other modules.
-- - Domain: internal/domain. Errors are the sentinel values of errors.go and the errors that the code
--   wraps or makes; `Result` is a value, an error or a panic. `JobStatus`, `EntityType` and `ModelTier`
--   are enumerations; a stage is a text, since the handlers use stages that enums.go does not list.
-- - Db: the database. `Schema` has the tables as the files of migrations/ create them, `Io` the calls:
--   an `Io A` takes the tables and the number of calls made so far to a result and the tables after.
-- - Txn: internal/txn/txn.go. `immediate` is `Immediate`, `read` is `Read`.
-- - Store: internal/store. One function per query (`..._query`) and one per method of a store.
-- - Queue: internal/queue/sqlite_queue.go, with the name of each method.
-- - Worker: internal/worker/daemon.go. `start` is `Start` for a given number of polls.
-- - Handlers: internal/handlers. `dispatch` is the dispatcher that internal/di/container.go wires into
--   the daemon, `Handlers.Parse.handle` the handler of the stage PARSE.
-- - Llm: internal/llm and the requests of internal/domain/interfaces.go. `History` is history.go,
--   `Discovery` discovery.go, `Client` client.go and provider.go, `Schema` schema.go.
-- - Tokenizer: internal/tokenizer/counter.go and tiktoken.go.
-- - Prompt: internal/prompt/db_registry.go.
-- - Ingest: internal/app/ingest/service.go. `process_file` is `ProcessFile`, `run` is `Run`
--   over any paths, and `Ingest.Walked.run_walk` is `Run` over the walker.
-- - Extract, Style, Graph: internal/app/extract, internal/app/style and internal/app/graph, with the
--   names of their methods. `Worker.Services` is internal/worker/dispatcher.go.
-- - Scanner: internal/scanner/walker.go. `walk` is `Walk` over a tree of directories, with the loop of
--   `filepath.Walk`; it counts how often the context is looked at.
-- - Scrub: internal/scrub/scrubber.go. `Scrub.Engine` is the matching of the package regexp, for the
--   forms of expression that the rules use.
-- - Api: internal/api/handlers.go and server.go. `serve` is the handler that `Start` listens with,
--   `Api.Clean` how the ServeMux of net/http cleans a path, and `Api.Scan` the reading of `%d` by
--   `fmt.Sscanf`.
-- - Metrics, Logger, Config, Cli: internal/metrics/registry.go, internal/logger/logger.go,
--   internal/config/config.go and internal/cli/cli.go. `Migrate` is internal/migrate/runner.go with
--   internal/db/db.go, and `Prompt.Hardcoded` internal/prompt/registry.go.
-- - Container: internal/di/container.go, how it finds or creates the project of a root. `Commands` is
--   internal/cli/ingest.go, daemon.go and init.go.
-- - Ast: internal/ast/parser.go. The regular expressions of the passes are written out.
-- - Tests: the theorems applied to small databases.
--
-- How the program is modelled:
--
-- - An `Env` decides what the program cannot: which calls of the database fail (each statement, BEGIN
--   and COMMIT may), the clock, in seconds, and the order of the rows that RETURNING gives. In an
--   environment that is `reliable` no call fails of itself.
-- - The context of five seconds that `processJobSafe` makes before it dispatches is the function
--   `cleanup`: once the clock is five seconds on, every call under it fails.
-- - A statement that fails changes no row. Ids come from AUTOINCREMENT: one more than the highest id
--   that a table has had. Foreign keys and unique constraints are checked where a statement writes:
--   the one connection that the pool keeps is taken to be one on which `Open` turned foreign keys on.
-- - Ids, priorities, counts and times are natural numbers, since no code writes a negative one; the
--   overflow of an id at 2 ^ 63 is not modelled.
-- - Texts that the code compares as a whole are strings, and texts that it walks through are lists of
--   bytes, or of code points where it trims them.
-- - The daemon's loop runs until its context is cancelled, and `start` takes the number of polls until
--   then. `TrimToBudget` is given a round more than there are messages, of which each round removes one,
--   and `DiscoverBoundary` seven rounds, since its step is at most 5000 after six halvings.
-- - Parameters: the language model and the library go-litellm, the file system, text/template,
--   encoding/json, sha256, the encoding of tiktoken, the scrubber, go-gitignore,
--   and in the ingestion the parser.
-- - Not modelled: the lines of the log and what the commands print, sleeps, the contexts other than
--   that of `processJobSafe` and those that the walker and the client look at, cobra and viper with
--   the signals, the command server (it listens), requests with escaped characters in their path, and,
--   outside of `Migrate`, the connection pool (it holds one connection, so that calls do not interleave).
pub mod Base
pub mod Domain
pub mod Db
pub mod Txn
pub mod Store
pub mod Queue
pub mod Prompt
pub mod Worker
pub mod Llm
pub mod Tokenizer
pub mod Handlers
pub mod Ingest
pub mod Scanner
pub mod Ast
pub mod Extract
pub mod Container
pub mod Api
pub mod Scrub
pub mod Metrics
pub mod Logger
pub mod Config
pub mod Migrate
pub mod Cli
pub mod Commands
pub mod Style
pub mod Graph
pub mod Tests
