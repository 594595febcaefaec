-- ===== src/Queue/Complete.antt =====
-- internal/queue/sqlite_queue.go, `Complete`: the handler's writes and the end of the job go together.
use prowiki.Base.{ℕ, ◌≡◌, false, ◌==◌, Option, none, delete_where, arith, ap, ◌∙◌}
use prowiki.Domain.Errors.{ok}
use prowiki.Domain.Entities.{Job}
use prowiki.Db.Schema.{Tables}
use prowiki.Db.Io.{Env, World, later}
use prowiki.Txn.{TxFunc}
use prowiki.Txn.Atomic.{AllOrNothing, AllOrNothing-imp}
use prowiki.Queue.{complete, run_handler}
use prowiki.Queue.Life.{life, summary, row_of-delete, row_of-delete_ne}

-- The tables without the row of the job.
abbrev pub without_job : ℕ → Tables → Tables
without_job id t = record t {
  jobs = record { rows = delete_where (λ (j : Job). j.id == id) t.jobs.rows; seq = t.jobs.seq };
}

life-without_job :
    (id : ℕ) (t : Tables)
    → (life id (without_job id t) ≡ none)
      × ((other : ℕ) → (other == id) ≡ false → life other (without_job id t) ≡ life other t)
unfolding life
life-without_job id t = (
  ap summary (row_of-delete id t.jobs.rows),
  λ other ne. ap summary (row_of-delete_ne id other t.jobs.rows ne),
)

complete_writes :
    (env : Env) (id : ℕ) (fn : Option TxFunc) (w : World)
    → AllOrNothing w (complete env id fn w) (λ _ w'.
      let handled = run_handler fn (later w) in
      (handled.0 ≡ ok tt) × (w'.tables ≡ without_job id handled.1.tables))
unfolding complete
complete_writes env id fn w = ground arith

pub complete_gone :
    (env : Env) (id : ℕ) (fn : Option TxFunc) (w : World)
    → AllOrNothing w (complete env id fn w) (λ _ w'. life id w'.tables ≡ none)
complete_gone env id fn w =
    AllOrNothing-imp w (complete env id fn w)
      (λ _ w' (ran, written).
        ap (life id) written ∙ (life-without_job id (run_handler fn (later w)).1.tables).0)
      (complete_writes env id fn w)

-- `Complete`, whichever calls fail: if it succeeds, the handler returned without an error and the
-- tables are those that the handler left, less the job's row, so that the job has no row and all
-- others are as the handler left them. If it fails or panics, every table is as it was before.
pub complete_atomic :
    (env : Env) (id : ℕ) (fn : Option TxFunc) (w : World)
    → AllOrNothing w (complete env id fn w) (λ _ w'.
      let handled = run_handler fn (later w) in
      (handled.0 ≡ ok tt)
      × (w'.tables ≡ without_job id handled.1.tables)
      × (life id w'.tables ≡ none)
      × ((other : ℕ) → (other == id) ≡ false → life other w'.tables ≡ life other handled.1.tables))
complete_atomic env id fn w =
    AllOrNothing-imp w (complete env id fn w)
      (λ _ w' (ran, written).
        let handled = (run_handler fn (later w)).1.tables in
        let (gone, others) = life-without_job id handled in
        (
          ran,
          written,
          ap (life id) written ∙ gone,
          λ other ne. ap (life other) written ∙ others other ne,
        ))
      (complete_writes env id fn w)
