-- ===== src/Store/Jobs.antt =====
-- internal/store/job_store.go: the rows of `job_queue`.
pub mod Order
pub mod Claim
pub mod Sound
pub mod Exclusive
pub mod Count
use prowiki.Base.{
  ℕ, ◌+◌, Bool, true, false, ◌&&◌, ◌||◌, String, List, [], ◌∷◌, map, length, take, select,
  update_where, ltb, ◌==◌, if◌then◌else◌, str_eq,
}
use prowiki.Domain.Errors.{Error, Result, ok, err, panicked}
use prowiki.Domain.Enums.{JobStatus, pending, processing, completed, failed, dead_lettered, Stage}
use prowiki.Domain.Entities.{Job}
use prowiki.Db.Schema.{Tables, Table, insert, has_project}
use prowiki.Db.Io.{Env, Io, Query, pure, statement}

abbrev pub is_status : JobStatus → JobStatus → Bool
is_status pending pending = true
is_status processing processing = true
is_status completed completed = true
is_status failed failed = true
is_status dead_lettered dead_lettered = true
is_status _ _ = false

abbrev pub has_status : JobStatus → Job → Bool
has_status s j = is_status s j.status

-- `ORDER BY priority DESC, id ASC`: whether `a` comes before `b`.
abbrev pub outranks : Job → Job → Bool
outranks a b = ltb b.priority a.priority || ((a.priority == b.priority) && ltb a.id b.id)

unfoldable pub insert_ordered : Job → List Job → List Job
insert_ordered j [] = j ∷ []
insert_ordered j (k ∷ ks) =
    let rest = insert_ordered j ks in if outranks j k then j ∷ k ∷ ks else k ∷ rest

unfoldable pub order_jobs : List Job → List Job
order_jobs [] = []
order_jobs (j ∷ js) = insert_ordered j (order_jobs js)

-- The subquery of `ClaimBatch`: the pending jobs in their order, at most `limit` of them.
unfoldable pub candidates : ℕ → List Job → List Job
candidates limit rows = take limit (order_jobs (select (has_status pending) rows))

-- `id IN (…)`
unfoldable pub is_among : List Job → Job → Bool
is_among [] j = false
is_among (k ∷ ks) j = j.id == k.id || is_among ks j

abbrev pub claim : ℕ → Job → Job
claim now j = record j { status = processing; updated_at = now }

-- RETURNING does not list `payload`, so the scanned job has the empty one.
abbrev pub scanned : Job → Job
scanned j = record j { payload = "" }

unfoldable pub claim_rows : ℕ → ℕ → List Job → List Job
claim_rows limit now rows = update_where (is_among (candidates limit rows)) (claim now) rows

unfoldable pub claimed_rows : ℕ → ℕ → List Job → List Job
claimed_rows limit now rows =
    map scanned (map (claim now) (select (is_among (candidates limit rows)) rows))

unfoldable pub claim_query : Env → ℕ → Query (List Job)
unfolding claim_rows claimed_rows
claim_query env limit now t = ok (
  env.arrange (claimed_rows limit now t.jobs.rows),
  record t { jobs = record { rows = claim_rows limit now t.jobs.rows; seq = t.jobs.seq } },
)

-- `ClaimBatch`
unfoldable pub claim_batch : Env → ℕ → Io (List Job)
unfolding claim_query statement
claim_batch env limit = statement env (claim_query env limit)

abbrev with_rows : Tables → List Job → Tables
with_rows t rows = record t { jobs = record { rows = rows; seq = t.jobs.seq } }

unfoldable pub update_status_query : ℕ → JobStatus → Query (Unit {0})
update_status_query id status now t = ok (
  tt,
  with_rows t (
      update_where (λ (j : Job). j.id == id)
        (λ (j : Job). record j { status = status; updated_at = now }) t.jobs.rows),
)

-- `UpdateStatus`: an id that is in no row is no error.
unfoldable pub update_status : Env → ℕ → JobStatus → Io (Unit {0})
unfolding update_status_query statement
update_status env id status = statement env (update_status_query id status)

-- A row as `EnqueueMany` inserts it: the status is always `pending`, and the columns that the
-- INSERT does not name have their defaults.
abbrev pub new_row : ℕ → Job → ℕ → Job
new_row now j id = record {
  id = id;
  project_id = j.project_id;
  target_id = j.target_id;
  target_type = j.target_type;
  stage = j.stage;
  status = pending;
  priority = j.priority;
  retry_count = 0;
  payload = "";
  created_at = now;
  updated_at = now;
}

unfoldable pub insert_jobs : List Job → Query (Unit {0})
insert_jobs [] now t = ok (tt, t)
insert_jobs (j ∷ js) now t = elim (has_project t j.project_id) [
  | true ↦ insert_jobs js now (record t { jobs = insert (new_row now j) t.jobs })
  | false ↦ err (Error.constraint "FOREIGN KEY constraint failed")
]

-- `EnqueueMany`: one INSERT for all jobs, and no statement for none.
unfoldable pub enqueue_many : Env → List Job → Io (Unit {0})
unfolding insert_jobs statement
enqueue_many env [] = pure tt
enqueue_many env (j ∷ js) = statement env (insert_jobs (j ∷ js))

abbrev pub is_completed_for : ℕ → Job → Bool
is_completed_for target j =
    str_eq j.target_type "File" && ((j.target_id == target) && has_status completed j)

unfoldable pub reset_query : ℕ → Query (Unit {0})
reset_query target now t = ok (
  tt,
  with_rows t (
      update_where (is_completed_for target)
        (λ (j : Job). record j { status = pending; priority = j.priority + 10; updated_at = now })
        t.jobs.rows),
)

-- `ResetCompletedForTarget`
unfoldable pub reset_completed_for_target : Env → ℕ → Io (Unit {0})
unfolding reset_query statement
reset_completed_for_target env target = statement env (reset_query target)

pub record JobStats : Type 0 where
  pub pending_jobs : ℕ
  pub processing_jobs : ℕ
  pub completed_jobs : ℕ
  pub failed_jobs : ℕ

-- `count(*)` of the group of one status; a status with no row has no group, and its field stays 0.
abbrev group_count : ℕ → JobStatus → List Job → ℕ
group_count project s rows =
    length (select (λ (j : Job). (j.project_id == project) && has_status s j) rows)

unfoldable pub stats_query : ℕ → Query JobStats
stats_query project now t = ok (
  record {
    pending_jobs = group_count project pending t.jobs.rows;
    processing_jobs = group_count project processing t.jobs.rows;
    completed_jobs = group_count project completed t.jobs.rows;
    failed_jobs = group_count project failed t.jobs.rows;
  },
  t,
)

-- `GetStats`
unfoldable pub get_stats : Env → ℕ → Io JobStats
unfolding stats_query statement
get_stats env project = statement env (stats_query project)
