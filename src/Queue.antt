-- ===== src/Queue.antt =====
-- internal/queue/sqlite_queue.go: the queue of jobs over `job_queue` and `dead_letter_queue`.
pub mod Invariant
pub mod Life
pub mod InTime
pub mod Complete
pub mod Rules
pub mod Phases
use prowiki.Base.{
  ℕ, ◌+◌, String, Option, some, none, List, ◌==◌, leb, if◌then◌else◌, delete_where, update_where,
  first_where,
}
use prowiki.Domain.Errors.{Error, Result, ok, err, panicked}
use prowiki.Domain.Enums.{pending, failed}
use prowiki.Domain.Entities.{Job}
use prowiki.Db.Io.{Env, Io, Query, pure, ◌>>=◌, ◌>>◌, statement}
use prowiki.Txn.{TxFunc, immediate}
use prowiki.Store.Jobs
use prowiki.Store.DeadLetters

-- `ClaimBatch`
unfoldable pub claim_batch : Env → ℕ → Io (List Job)
unfolding Jobs.claim_batch immediate
claim_batch env limit = immediate env (Jobs.claim_batch env limit)

unfoldable pub delete_query : ℕ → Query (Unit {0})
delete_query id now t = ok (
  tt,
  record t {
    jobs = record { rows = delete_where (λ (j : Job). j.id == id) t.jobs.rows; seq = t.jobs.seq };
  },
)

-- `fn != nil`
abbrev pub run_handler : Option TxFunc → TxFunc
run_handler none = pure tt
run_handler (some fn) = fn

-- `Complete`: the handler's writes and the deletion of the job, in one transaction.
unfoldable pub complete : Env → ℕ → Option TxFunc → Io (Unit {0})
unfolding delete_query immediate statement
complete env id fn = immediate env (run_handler fn >> statement env (delete_query id))

unfoldable pub retry_count_query : ℕ → Query ℕ
retry_count_query id now t = elim (first_where (λ (j : Job). j.id == id) t.jobs.rows) [
  | none ↦ err Error.no_rows
  | some j ↦ ok (j.retry_count, t)
]

abbrev pub retried : Job → Job
retried j = record j { status = pending; retry_count = j.retry_count + 1 }

unfoldable pub retry_query : ℕ → Query (Unit {0})
retry_query id now t = ok (
  tt,
  record t {
    jobs = record {
      rows = update_where (λ (j : Job). j.id == id) retried t.jobs.rows;
      seq = t.jobs.seq;
    };
  },
)

abbrev pub max_retries : ℕ
max_retries = 3

fail_body : Env → ℕ → String → TxFunc
unfolding retry_count_query retry_query statement DeadLetters.create Jobs.update_status
fail_body env id payload = do
  count ← statement env (retry_count_query id)
  if leb max_retries count
      then (DeadLetters.create env id payload "max retries exceeded"
          >> Jobs.update_status env id failed)
      else statement env (retry_query id)

-- `Fail`
unfoldable pub fail : Env → ℕ → String → Io (Unit {0})
unfolding fail_body retry_query retry_count_query immediate statement DeadLetters.create
    Jobs.update_status
fail env id payload = immediate env (fail_body env id payload)

-- `Enqueue`
unfoldable pub enqueue : Env → List Job → Io (Unit {0})
unfolding Jobs.enqueue_many immediate
enqueue env jobs = immediate env (Jobs.enqueue_many env jobs)
