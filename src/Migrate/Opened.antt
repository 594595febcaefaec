-- ===== src/Migrate/Opened.antt =====
-- internal/db/db.go, `Open`: what the other modules take for granted of the database.
use prowiki.Base.{◌≡◌, refl, true, false, [], ◌∷◌, Option-cases, inl, inr}
use prowiki.Domain.Errors.{Result, ok, err, panicked}
use prowiki.Migrate.{Driver, Pool, pragmas, new_pool, run_pragmas, pooled, open_database}

-- The pool that `Open` hands out, or one that it closed.
abbrev pub IsOpenOrClosed : Driver → Result (Unit {0}) × Pool → Type 0
IsOpenOrClosed d (ok u, p) = p ≡ record {
  executed =
      (d.pick 0, "PRAGMA journal_mode=WAL;")
      ∷ (d.pick 1, "PRAGMA synchronous=NORMAL;")
      ∷ (d.pick 2, "PRAGMA foreign_keys=ON;")
      ∷ (d.pick 3, "PRAGMA busy_timeout=5000;")
      ∷ [];
  closed = false;
  max_open = 1;
}
IsOpenOrClosed d (err e, p) = p.closed ≡ true
IsOpenOrClosed d (panicked q, p) = ⊥

pragmas-IsOpenOrClosed : (d : Driver) → IsOpenOrClosed d (pooled (run_pragmas d pragmas new_pool))
unfolding run_pragmas
pragmas-IsOpenOrClosed d = elim (Option-cases (d.exec (d.pick 0) "PRAGMA journal_mode=WAL;")) [
  | inr (f, e) ↦ rw e refl
  | inl e0 ↦ rw e0 elim (Option-cases (d.exec (d.pick 1) "PRAGMA synchronous=NORMAL;")) [
    | inr (f, e) ↦ rw e refl
    | inl e1 ↦ rw e1 elim (Option-cases (d.exec (d.pick 2) "PRAGMA foreign_keys=ON;")) [
      | inr (f, e) ↦ rw e refl
      | inl e2 ↦ rw e2 elim (Option-cases (d.exec (d.pick 3) "PRAGMA busy_timeout=5000;")) [
        | inr (f, e) ↦ rw e refl
        | inl e3 ↦ rw e3 refl
      ]
    ]
  ]
]

-- `Open`, whatever database/sql answers and whichever connections it takes: it returns a pool that was
-- not closed and may hold one connection from then on, and before that the journal mode WAL, the
-- synchronous mode NORMAL, foreign keys and the busy timeout of 5000 were set, once each and in this
-- order, each on the connection that was taken for it; or it returns an error, and the pool is closed.
pub open_database-IsOpenOrClosed : (d : Driver) → IsOpenOrClosed d (open_database d)
unfolding open_database
open_database-IsOpenOrClosed d = elim (Option-cases d.refusal) [
  | inl e ↦ rw e (pragmas-IsOpenOrClosed d)
  | inr (f, e) ↦ rw e refl
]
