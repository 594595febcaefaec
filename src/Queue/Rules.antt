-- ===== src/Queue/Rules.antt =====
-- internal/queue/sqlite_queue.go: what a daemon needs to know of the queue to keep a property of the
-- tables, in one environment.
use prowiki.Base.{ℕ, ◌≡◌, String, List, some}
use prowiki.Domain.Entities.{Job}
use prowiki.Db.Schema.{Tables}
use prowiki.Db.Io.{Env}
use prowiki.Db.Keeps.{Keeps}
use prowiki.Db.Ensures.{Ensures}
use prowiki.Txn.{TxFunc}
use prowiki.Queue
use prowiki.Store.Jobs

-- The property is one of the jobs and the dead letters.
abbrev pub IsFramed : (Tables → Type 0) → Type 0
IsFramed P = (t t' : Tables) → t'.jobs ≡ t.jobs → t'.dead_letters ≡ t.dead_letters → P t → P t'

pub record QueueRules (env : Env) (P : Tables → Type 0) : Type 0 where
  pub framed : IsFramed P
  pub claiming : (limit : ℕ) → Keeps P (Queue.claim_batch env limit)
  pub completing :
      (id : ℕ) (fn : TxFunc) → Ensures P fn (λ _. P) → Keeps P (Queue.complete env id (some fn))
  pub failing : (id : ℕ) (payload : String) → Keeps P (Queue.fail env id payload)
  pub enqueuing : (js : List Job) → Ensures P (Jobs.enqueue_many env js) (λ _. P)
