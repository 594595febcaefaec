-- ===== src/Txn.antt =====
-- internal/txn/txn.go: running a function inside a transaction. The pool has one connection, so
-- between BEGIN and COMMIT no other call reaches the database.
pub mod Atomic
pub mod Keeps
pub mod Succeeds
use prowiki.Base.{String, Option, some, none}
use prowiki.Domain.Errors.{Error, Result, ok, err, panicked}
use prowiki.Db.Io.{Env, World, Io, statement, later, settle}

-- `domain.TxFunc`
abbrev pub TxFunc : Type 0
TxFunc = Io (Unit {0})

-- The tables of `w`, after the calls of `w'`.
abbrev pub rollback : World → World → World
rollback w w' = record w' { tables = w.tables }

-- COMMIT. A commit that fails leaves the rows as they were at BEGIN.
abbrev commit : {A : Type 0} → Option String → World → A → World → Result A × World
commit none w a w' = (ok a, later w')
commit (some e) w a w' = (err (Error.foreign e), rollback w (later w'))

-- The deferred function: roll back on a panic, which goes on, and on an error; commit otherwise.
abbrev conclude : {A : Type 0} → Env → World → Result A × World → Result A × World
conclude env w (ok a, w') = commit (env.fault w'.tick) w a w'
conclude env w (err e, w') = (err e, rollback w w')
conclude env w (panicked p, w') = (panicked p, rollback w w')

abbrev begun : {A : Type 0} → Env → Option String → World → Io A → Result A × World
begun env none w fn = conclude env w (fn w)
begun env (some e) w fn = (err (Error.wrapped "failed to begin transaction" (Error.foreign e)), w)

-- `Immediate`. What `fn` assigns to a captured variable is its value here.
unfoldable pub immediate : {A : Type 0} → Env → Io A → Io A
immediate env fn w = begun env (env.fault w.tick) (later w) fn

abbrev conclude_read : {A : Type 0} → World → Result A × World → Result A × World
conclude_read w (r, w') = (r, rollback w w')

abbrev begun_read : {A : Type 0} → Option String → World → Io A → Result A × World
begun_read none w fn = conclude_read w (fn w)
begun_read (some e) w fn =
    (err (Error.wrapped "failed to begin read transaction" (Error.foreign e)), w)

-- `Read` always rolls back.
unfoldable pub read : {A : Type 0} → Env → Io A → Io A
read env fn w = begun_read (env.fault w.tick) (later w) fn
