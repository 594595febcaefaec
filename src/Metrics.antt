-- ===== src/Metrics.antt =====
-- internal/metrics/registry.go: the values that the daemon's metrics show. The library of Prometheus
-- is not part of the repository: a vector of counters or gauges is a list from labels to values.
pub mod Depth
use prowiki.Base.{
  ℕ, ◌+◌, ◌&&◌, Bool, String, str_eq, List, [], ◌∷◌, ◌==◌, if◌then◌else◌, length, select,
}
use prowiki.Domain.Errors.{Result, ok, err, panicked}
use prowiki.Domain.Enums.{
  JobStatus, pending, processing, completed, failed, dead_lettered, job_status_text,
}
use prowiki.Db.Schema.{Tables}
use prowiki.Db.Io.{Env, World, Query, statement}
use prowiki.Store.Jobs.{has_status}

-- A vector with one label, and one with two.
abbrev pub Gauges : Type 0
Gauges = List (String × ℕ)

abbrev pub Counters : Type 0
Counters = List ((String × String) × ℕ)

-- `WithLabelValues(l).Set(v)`
unfoldable pub set_gauge : String → ℕ → Gauges → Gauges
set_gauge label v [] = (label, v) ∷ []
set_gauge label v ((l, n) ∷ gs) =
    let rest = set_gauge label v gs in if str_eq l label then (l, v) ∷ gs else (l, n) ∷ rest

-- What is shown of a label; a label that was never used is not shown.
unfoldable pub gauge : String → Gauges → ℕ
gauge label [] = 0
gauge label ((l, n) ∷ gs) = let rest = gauge label gs in if str_eq l label then n else rest

-- `WithLabelValues(a, b).Inc()`
unfoldable pub inc_counter : String → String → Counters → Counters
inc_counter a b [] = ((a, b), 1) ∷ []
inc_counter a b (((x, y), n) ∷ cs) =
    let rest = inc_counter a b cs in
    if str_eq x a && str_eq y b then ((x, y), n + 1) ∷ cs else ((x, y), n) ∷ rest

pub record Registry : Type 0 where
  pub jobs_total : Counters
  pub llm_requests : Counters
  pub queue_depth : Gauges

-- `NewRegistry`
abbrev pub new_registry : Registry
new_registry = record { jobs_total = []; llm_requests = []; queue_depth = [] }

-- `IncJobsTotal`
unfoldable pub inc_jobs_total : String → String → Registry → Registry
unfolding inc_counter
inc_jobs_total stage status r = record r { jobs_total = inc_counter stage status r.jobs_total }

-- `IncLLMRequests`
unfoldable pub inc_llm_requests : String → String → Registry → Registry
unfolding inc_counter
inc_llm_requests model status r = record r {
  llm_requests = inc_counter model status r.llm_requests;
}

abbrev pub status_count : JobStatus → Tables → ℕ
status_count s t = length (select (has_status s) t.jobs.rows)

abbrev pub with_group : JobStatus → Tables → List (String × ℕ) → List (String × ℕ)
with_group s t rest =
    if status_count s t == 0 then rest else (job_status_text s, status_count s t) ∷ rest

-- `SELECT status, COUNT(*) … GROUP BY status`: no group for a status that no row has.
unfoldable pub depth_query : Query (List (String × ℕ))
unfolding job_status_text
depth_query now t = ok (
  with_group completed t (
      with_group dead_lettered t
        (with_group failed t (with_group pending t (with_group processing t [])))),
  t,
)

unfoldable pub set_all : List (String × ℕ) → Gauges → Gauges
unfolding set_gauge
set_all [] gs = gs
set_all ((s, n) ∷ rows) gs = set_all rows (set_gauge s n gs)

abbrev pub updated : Registry → Result (List (String × ℕ)) × World → Registry × World
updated r (ok rows, w) = (record r { queue_depth = set_all rows r.queue_depth }, w)
updated r (err e, w) = (r, w)
updated r (panicked p, w) = (r, w)

-- `SetQueueDepth`
unfoldable pub set_queue_depth : Env → Registry → World → Registry × World
unfolding depth_query set_all statement
set_queue_depth env r w = updated r (statement env depth_query w)
