-- ===== src/Db/Io.antt =====
-- Calls that reach the database, as functions of the world. `database/sql` and SQLite are not part
-- of the repository: whether a statement fails for a reason of the driver (a cancelled context, a
-- full disk), what the clock shows and in which order RETURNING gives its rows is decided by an
-- `Env`. A statement that fails changes no row.
use prowiki.Base.{String, ℕ, ◌+◌, Option, some, none, List}
use prowiki.Domain.Errors.{Error, Result, ok, err, panicked}
use prowiki.Domain.Entities.{Job}
use prowiki.Db.Schema.{Tables}

pub record Env : Type 0 where
  -- what the driver says of the n-th call, if it fails
  pub fault : ℕ → Option String
  -- in seconds, at the n-th call
  pub clock : ℕ → ℕ
  -- the order in which `UPDATE … RETURNING` returns its rows
  pub arrange : List Job → List Job

-- An environment in which no call fails.
abbrev pub reliable : (ℕ → ℕ) → (List Job → List Job) → Env
reliable clock arrange = record { fault = λ _. none; clock = clock; arrange = arrange }

pub record World : Type 0 where
  pub tables : Tables
  -- how many calls were made
  pub tick : ℕ

abbrev pub Io : Type 0 → Type 0
Io A = World → Result A × World

abbrev pub pure : {A : Type 0} → A → Io A
pure a w = (ok a, w)

abbrev pub raise : {A : Type 0} → Error → Io A
raise e w = (err e, w)

abbrev pub lift : {A : Type 0} → Result A → Io A
lift r w = (r, w)

abbrev pub continue : {A B : Type 0} → Result A → (A → Io B) → Io B
continue (ok a) f w = f a w
continue (err e) f w = (err e, w)
continue (panicked p) f w = (panicked p, w)

infixl 5 ◌>>=◌ ◌>>◌
abbrev pub ◌>>=◌ : {A B : Type 0} → Io A → (A → Io B) → Io B
◌>>=◌ m f w = let (r, w') = m w in continue r f w'

abbrev pub ◌>>◌ : {A B : Type 0} → Io A → Io B → Io B
m >> n = m >>= λ _. n

-- What a statement does to the tables at a given time: a value and the new tables, or an error.
abbrev pub Query : Type 0 → Type 0
Query A = ℕ → Tables → Result (A × Tables)

abbrev pub settle : {A : Type 0} → World → Result (A × Tables) → Result A × World
settle w (ok (a, t)) = (ok a, record w { tables = t })
settle w (err e) = (err e, w)
settle w (panicked p) = (panicked p, w)

abbrev pub attempt : {A : Type 0} → Option String → Result (A × Tables) → World → Result A × World
attempt none r w = settle w r
attempt (some e) r w = (err (Error.foreign e), w)

abbrev pub later : World → World
later w = record w { tick = w.tick + 1 }

unfoldable pub statement : {A : Type 0} → Env → Query A → Io A
statement env q w = attempt (env.fault w.tick) (q (env.clock w.tick) w.tables) (later w)
