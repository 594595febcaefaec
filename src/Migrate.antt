-- ===== src/Migrate.antt =====
-- internal/migrate/runner.go and internal/db/db.go: opening the database and running the migrations.
-- database/sql and golang-migrate are parameters: what they answer.
pub mod Opened
use prowiki.Base.{
  ℕ, length, Bool, true, false, String, List, [], ◌∷◌, ◌++◌, Option, none, some, if◌then◌else◌,
}
use Prim.Native.String.{◌++◌ as ◌^◌}
use prowiki.Domain.Errors.{Error, Result, ok, err, panicked}

-- What a run of golang-migrate says: its sentinel `ErrNoChange`, or another error.
pub data Outcome : Type 0 where
  done no_change : Outcome
  refused : Error → Outcome

abbrev pub mapped : String → Outcome → Result (Unit {0})
mapped message done = ok tt
mapped message no_change = ok tt
mapped message (refused e) = err (Error.wrapped message e)

-- `getMigrateInstance`, of what its three constructors answer.
abbrev pub instance_of : Option Error → Option Error → Option Error → Result (Unit {0})
instance_of (some e) driver runner = err (Error.wrapped "failed to create source driver" e)
instance_of none (some e) runner = err (Error.wrapped "failed to create db driver" e)
instance_of none none (some e) = err (Error.wrapped "failed to create migrate instance" e)
instance_of none none none = ok tt

abbrev pub run_with : Result (Unit {0}) → Result (Unit {0}) → Result (Unit {0})
run_with (ok u) result = result
run_with (err e) result = err e
run_with (panicked p) result = panicked p

-- `Up`
abbrev pub up : Result (Unit {0}) → Outcome → Result (Unit {0})
up made outcome = run_with made (mapped "migration up failed" outcome)

-- `Down`
abbrev pub down : Result (Unit {0}) → Outcome → Result (Unit {0})
down made outcome = run_with made (mapped "migration down failed" outcome)

abbrev pub pragmas : List String
pragmas =
    "PRAGMA journal_mode=WAL;" ∷ "PRAGMA synchronous=NORMAL;" ∷ "PRAGMA foreign_keys=ON;"
    ∷ "PRAGMA busy_timeout=5000;" ∷ []

-- What database/sql answers: the connection of its pool that it takes for the n-th statement, what a
-- statement on a connection ends with, and whether it refuses to open the database.
pub record Driver : Type 0 where
  pub pick : ℕ → ℕ
  pub exec : ℕ → String → Option Error
  pub refusal : Option Error

-- A pool: the statements that were executed, each with its connection; whether it was closed; and how
-- many connections it may hold, where 0 is no limit.
pub record Pool : Type 0 where
  pub executed : List (ℕ × String)
  pub closed : Bool
  pub max_open : ℕ

-- The connection for the next statement.
abbrev pub next_connection : Driver → Pool → ℕ
next_connection d p = d.pick (length p.executed)

-- The loop over the pragmas, through `db.Exec`.
unfoldable pub run_pragmas : Driver → List String → Pool → Result (Unit {0}) × Pool
run_pragmas d [] p = (ok tt, p)
run_pragmas d (s ∷ rest) p = elim (d.exec (next_connection d p) s) [
  | none ↦ run_pragmas d rest (record p { executed = p.executed ++ (next_connection d p, s) ∷ [] })
  | some e ↦ (err (Error.wrapped ("failed to execute pragma " ^ s) e), record p { closed = true })
]

-- `SetMaxOpenConns(1)`
abbrev pub pooled : Result (Unit {0}) × Pool → Result (Unit {0}) × Pool
pooled (ok u, p) = (ok tt, record p { max_open = 1 })
pooled (err e, p) = (err e, p)
pooled (panicked q, p) = (panicked q, p)

abbrev pub new_pool : Pool
new_pool = record { executed = []; closed = false; max_open = 0 }

abbrev pub opened : Driver → Option Error → Result (Unit {0}) × Pool
opened d (some e) =
    (err (Error.wrapped "failed to open database" e), record new_pool { closed = true })
opened d none = pooled (run_pragmas d pragmas new_pool)

-- `Open`
unfoldable pub open_database : Driver → Result (Unit {0}) × Pool
unfolding run_pragmas
open_database d = opened d d.refusal
