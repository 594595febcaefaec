-- ===== src/Txn/Atomic.antt =====
-- internal/txn/txn.go: a transaction commits all of its function's writes or none.
use prowiki.Base.{◌≡◌, arith, subst, sym}
use prowiki.Db.Schema.{Tables}
use prowiki.Db.Ensures.{Post, Post-at}
use prowiki.Domain.Errors.{Result, ok, err, panicked}
use prowiki.Db.Io.{Env, World, Io, later}
use prowiki.Txn.{immediate}

-- The result of a call, seen through its outcome: on a value the written tables stand, on an error
-- or a panic the tables are those before the call.
abbrev pub AllOrNothing : {A : Type 0} → World → Result A × World → (A → World → Type 0) → Type 0
AllOrNothing w (ok a, w') P = P a w'
AllOrNothing w (err e, w') P = w'.tables ≡ w.tables
AllOrNothing w (panicked p, w') P = w'.tables ≡ w.tables

pub AllOrNothing-imp :
    {A : Type 0} (w : World) (x : Result A × World) {P Q : A → World → Type 0}
    → ((a : A) (w' : World) → P a w' → Q a w')
    → AllOrNothing w x P
    → AllOrNothing w x Q
AllOrNothing-imp w (ok a, w') f h = f a w' h
AllOrNothing-imp w (err e, w') f h = h
AllOrNothing-imp w (panicked p, w') f h = h

-- `Immediate` returns a value only if its function, run after BEGIN, returned that value, and then
-- the tables are those that the function left. If it returns an error or passes on a panic (BEGIN
-- failed, the function failed or panicked, COMMIT failed), the tables are unchanged.
pub immediate_atomic :
    {A : Type 0} (env : Env) (fn : Io A) (w : World)
    → AllOrNothing w
        (immediate env fn w)
        (λ a w'. ((fn (later w)).0 ≡ ok a) × (w'.tables ≡ (fn (later w)).1.tables))
unfolding immediate
immediate_atomic env fn w = ground arith

-- What a function establishes from the tables before it, a transaction of it establishes if it
-- returns a value, and else it changes nothing.
pub immediate-AllOrNothing :
    {A : Type 0} (env : Env) (fn : Io A) (w : World) (Q : A → Tables → Type 0)
    → Post Q (fn (later w))
    → AllOrNothing w (immediate env fn w) (λ a w'. Q a w'.tables)
immediate-AllOrNothing env fn w Q h =
    AllOrNothing-imp w (immediate env fn w)
      (λ a w' (returned, written).
        subst (Q a) (sym written) (Post-at (fn (later w)) Q a h returned))
      (immediate_atomic env fn w)
