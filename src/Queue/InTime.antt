-- ===== src/Queue/InTime.antt =====
-- internal/queue/sqlite_queue.go: `Fail`, where no call that it makes fails.
use prowiki.Base.{
  ℕ, true, ◌+◌, ◌<◌, String, ◌≡◌, leb, Bool-cases, some, none, Option-cases, inl, inr, arith,
}
use prowiki.Domain.Entities.{Job}
use prowiki.Db.Io.{Env, World, reliable}
use prowiki.Queue.{fail, max_retries}
use prowiki.Queue.Life.{row_of}

module _ (env : Env) (id : ℕ) (payload : String) (w : World)
    (calm : (n : ℕ) → n < (fail env id payload w).1.tick → env.fault n ≡ none) where
  call0 : env.fault w.tick ≡ none
  unfolding fail
  call0 = elim (Option-cases (env.fault w.tick)) [
    | inl e ↦ e
    | inr (s, e) ↦ calm w.tick (ground (arith, e))
  ]

  call1 : env.fault (w.tick + 1) ≡ none
  unfolding fail
  call1 = elim (Option-cases (env.fault (w.tick + 1))) [
    | inl e ↦ e
    | inr (s, e) ↦ calm (w.tick + 1) (ground (arith, call0, e))
  ]

  call2 : (j : Job) → row_of id w.tables.jobs.rows ≡ some j → env.fault (w.tick + 1 + 1) ≡ none
  unfolding fail
  call2 j k = elim (Option-cases (env.fault (w.tick + 1 + 1))) [
    | inl e ↦ e
    | inr (s, e) ↦ calm (w.tick + 1 + 1) (ground (arith, call0, call1, k, e))
  ]

  call3 : (j : Job) → row_of id w.tables.jobs.rows ≡ some j → env.fault (w.tick + 1 + 1 + 1) ≡ none
  unfolding fail
  call3 j k = elim (Option-cases (env.fault (w.tick + 1 + 1 + 1))) [
    | inl e ↦ e
    | inr (s, e) ↦ calm (w.tick + 1 + 1 + 1) (ground (arith, call0, call1, call2 j k, k, e))
  ]

  call4 :
      (j : Job)
      → row_of id w.tables.jobs.rows ≡ some j
      → leb max_retries j.retry_count ≡ true
      → env.fault (w.tick + 1 + 1 + 1 + 1) ≡ none
  unfolding fail
  call4 j k l = elim (Option-cases (env.fault (w.tick + 1 + 1 + 1 + 1))) [
    | inl e ↦ e
    | inr (s, e) ↦
        calm (w.tick + 1 + 1 + 1 + 1) (ground (arith, call0, call1, call2 j k, call3 j k, k, l, e))
  ]

  -- Then `Fail` does what it does in an environment in which no call fails.
  pub fail_calm : fail env id payload w ≡ fail (reliable env.clock env.arrange) id payload w
  unfolding fail
  fail_calm = elim (Option-cases (row_of id w.tables.jobs.rows)) [
    | inl k ↦ ground (arith, call0, call1, k)
    | inr (j, k) ↦ elim (Bool-cases (leb max_retries j.retry_count)) [
      | inl l ↦ ground (arith, call0, call1, call2 j k, call3 j k, call4 j k l, k, l)
      | inr l ↦ ground (arith, call0, call1, call2 j k, call3 j k, k, l)
    ]
  ]

-- The same, where the five calls that it may make do not fail.
pub fail_quick :
    (env : Env) (id : ℕ) (payload : String) (w : World)
    → ((k : ℕ) → k < 5 → env.fault (w.tick + k) ≡ none)
    → fail env id payload w ≡ fail (reliable env.clock env.arrange) id payload w
unfolding fail
fail_quick env id payload w calm =
    let h0 : env.fault w.tick ≡ none = at 0 w.tick (omega arith) (omega arith) in
    let h1 : env.fault (w.tick + 1) ≡ none = calm 1 (omega arith) in
    let h2 : env.fault (w.tick + 1 + 1) ≡ none =
      at 2 (w.tick + 1 + 1) (omega arith) (omega arith) in
    let h3 : env.fault (w.tick + 1 + 1 + 1) ≡ none =
      at 3 (w.tick + 1 + 1 + 1) (omega arith) (omega arith) in
    let h4 : env.fault (w.tick + 1 + 1 + 1 + 1) ≡ none =
      at 4 (w.tick + 1 + 1 + 1 + 1) (omega arith) (omega arith) in
    elim (Option-cases (row_of id w.tables.jobs.rows)) [
      | inl k ↦ ground (arith, h0, h1, k)
      | inr (j, k) ↦ elim (Bool-cases (leb max_retries j.retry_count)) [
        | inl l ↦ ground (arith, h0, h1, h2, h3, h4, k, l)
        | inr l ↦ ground (arith, h0, h1, h2, h3, k, l)
      ]
    ]
  where
    at : (k n : ℕ) → k < 5 → n ≡ w.tick + k → env.fault n ≡ none
    at k n h e = rw e (calm k h)
