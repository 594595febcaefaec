-- ===== src/Metrics/Depth.antt =====
-- internal/metrics/registry.go, `SetQueueDepth`: which gauges it sets.
use prowiki.Base.{
  ℕ, ◌≡◌, refl, ◌∙◌, ap, String, str_eq, eq_iff, List, [], ◌∷◌, ◌==◌, if◌then◌else◌, arith,
  Bool-cases, inl, inr, none,
}
use prowiki.Domain.Enums.{
  JobStatus, pending, processing, completed, failed, dead_lettered, job_status_text,
}
use prowiki.Db.Schema.{Tables}
use prowiki.Db.Io.{Env, World, statement}
use prowiki.Metrics.{
  Gauges, set_gauge, gauge, Registry, status_count, with_group, depth_query, set_all,
  set_queue_depth,
}

gauge-set_gauge :
    (label l : String) (v : ℕ) (gs : Gauges)
    → gauge label (set_gauge l v gs) ≡ (if str_eq l label then v else gauge label gs)
unfolding gauge set_gauge
gauge-set_gauge label l v [] = refl
gauge-set_gauge label l v ((x, n) ∷ gs) =
    ground (arith, gauge-set_gauge label l v gs, eq_iff x l, eq_iff x label, eq_iff l label)

-- One group of the answer.
abbrev set_group : JobStatus → Tables → Gauges → Gauges
set_group a t gs =
    if status_count a t == 0 then gs else set_gauge (job_status_text a) (status_count a t) gs

set_all-group :
    (a : JobStatus) (t : Tables) (rest : List (String × ℕ)) (gs : Gauges)
    → set_all (with_group a t rest) gs ≡ set_all rest (set_group a t gs)
unfolding set_all
set_all-group a t rest gs = elim (Bool-cases (status_count a t == 0)) [
  | inl e ↦ rw e refl
  | inr e ↦ rw e refl
]

gauge-group :
    (label : String) (a : JobStatus) (t : Tables) (gs : Gauges)
    → gauge label (set_group a t gs) ≡ (
        if status_count a t == 0
        then gauge label gs
        else if str_eq (job_status_text a) label
        then status_count a t
        else gauge label gs)
gauge-group label a t gs = elim (Bool-cases (status_count a t == 0)) [
  | inl e ↦ rw e refl
  | inr e ↦ rw e (gauge-set_gauge label (job_status_text a) (status_count a t) gs)
]

abbrev all_groups : Tables → Gauges → Gauges
all_groups t gs = set_group processing t (
    set_group pending t (set_group failed t (set_group dead_lettered t (set_group completed t gs))))

set_all-groups :
    (t : Tables) (gs : Gauges)
    → set_all
        (with_group completed t (
          with_group dead_lettered t
            (with_group failed t (with_group pending t (with_group processing t [])))))
        gs
      ≡ all_groups t gs
unfolding set_all
set_all-groups t gs =
    set_all-group completed t _ gs
    ∙ set_all-group dead_lettered t _ _
    ∙ set_all-group failed t _ _
    ∙ set_all-group pending t _ _
    ∙ set_all-group processing t [] _

gauge-all_groups :
    (s : JobStatus) (t : Tables) (gs : Gauges)
    → gauge (job_status_text s) (all_groups t gs)
      ≡ (if status_count s t == 0 then gauge (job_status_text s) gs else status_count s t)
unfolding job_status_text
gauge-all_groups s t gs =
    rw
      (
        gauge-group (job_status_text s) processing t,
        gauge-group (job_status_text s) pending t,
        gauge-group (job_status_text s) failed t,
        gauge-group (job_status_text s) dead_lettered t,
        gauge-group (job_status_text s) completed t,
      )
      (of_status s)
  where
    shown : JobStatus → JobStatus → ℕ → ℕ
    shown a s rest =
        if status_count a t == 0
        then rest
        else if str_eq (job_status_text a) (job_status_text s)
        then status_count a t
        else rest

    of_status :
        (s : JobStatus)
        → shown processing s (
            shown pending s (
              shown failed s
                (shown dead_lettered s (shown completed s (gauge (job_status_text s) gs)))))
          ≡ (if status_count s t == 0 then gauge (job_status_text s) gs else status_count s t)
    of_status pending = ground arith
    of_status processing = ground arith
    of_status completed = ground arith
    of_status failed = ground arith
    of_status dead_lettered = ground arith

-- What a gauge shows after an update.
abbrev pub depth_after : JobStatus → Tables → Registry → ℕ
depth_after s t r =
    if status_count s t == 0 then gauge (job_status_text s) r.queue_depth else status_count s t

-- `SetQueueDepth`, where the query works: the gauge of a status shows the number of its jobs if there
-- is one, and what it showed before if there is none. The tables and the counters stay.
pub set_queue_depth_lem :
    (env : Env) (r : Registry) (w : World)
    → env.fault w.tick ≡ none
    → ((s : JobStatus)
        → gauge (job_status_text s) (set_queue_depth env r w).0.queue_depth
          ≡ depth_after s w.tables r)
      × ((set_queue_depth env r w).1.tables ≡ w.tables)
      × ((set_queue_depth env r w).0.jobs_total ≡ r.jobs_total)
      × ((set_queue_depth env r w).0.llm_requests ≡ r.llm_requests)
unfolding set_queue_depth depth_query statement
set_queue_depth_lem env r w calm = rw calm (
  (λ s.
      ap (λ (gs : Gauges). gauge (job_status_text s) gs) (set_all-groups w.tables r.queue_depth)
      ∙ gauge-all_groups s w.tables r.queue_depth),
  refl,
  refl,
  refl,
)
