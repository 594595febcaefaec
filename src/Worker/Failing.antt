-- ===== src/Worker/Failing.antt =====
-- internal/worker/daemon.go with internal/queue/sqlite_queue.go: a batch of jobs that all fail.
use prowiki.Base.{
  ℕ, suc, ◌+◌, ◌<◌, ◌≤◌, leb, ◌≡◌, refl, sym, ap, subst, ◌∙◌, some, none, Option, List, [], ◌∷◌,
  arith, Bool, true, false, String, update_where, All, All-imp, All-update_where, length, select,
  ◌==◌, if◌then◌else◌, Bool-cases, Option-cases, inl, inr,
}
use prowiki.Domain.Errors.{Error, Result, ok, err, panicked, error_text}
use prowiki.Domain.Enums.{JobStatus, failed}
use prowiki.Domain.Entities.{Job}
use prowiki.Db.Io.{Env, World, reliable}
use prowiki.Queue
use prowiki.Queue.{max_retries, retried}
use prowiki.Queue.InTime.{fail_quick}
use prowiki.Queue.Life.{life, failed_life, fail_lem, fail_result, fail_result-eq, row_of}
use prowiki.Store.Jobs.Order.{HasDistinctIds}
use prowiki.Store.Jobs.Sound.{HasDistinctIds-update}
use prowiki.Worker.{Dispatch, process_job_safe, process_jobs, dropped, recovered, cleanup}

-- No two jobs have one id, each job's stage passes the test, and there are at most ten jobs.
pub record IsFit (test : String → Bool) (rows : List Job) : Type 0 where
  pub distinct : HasDistinctIds rows
  pub each : All (λ (j : Job). test j.stage ≡ true) rows
  pub few : length rows ≤ 10

length-update_where :
    (p : Job → Bool) (f : Job → Job) (rows : List Job)
    → length (update_where p f rows) ≡ length rows
length-update_where p f [] = refl
length-update_where p f (j ∷ rows) = ap suc (length-update_where p f rows)

pub IsFit-update :
    (test : String → Bool) (p : Job → Bool) (f : Job → Job) (rows : List Job)
    → ((j : Job) → (f j).id ≡ j.id)
    → ((j : Job) → (f j).stage ≡ j.stage)
    → IsFit test rows
    → IsFit test (update_where p f rows)
IsFit-update test p f rows same_id same_stage h = record {
  distinct = HasDistinctIds-update p f rows same_id h.distinct;
  each =
      All-update_where (λ (j : Job). test j.stage ≡ true) p f rows
        (All-imp (λ j e. changed j (p j) e) rows h.each);
  few = rw (length-update_where p f rows) h.few;
}
  where
    changed : (j : Job) (b : Bool) → test j.stage ≡ true → test (if b then f j else j).stage ≡ true
    changed j true e = ap test (same_stage j) ∙ e
    changed j false e = e

-- What a batch of failing jobs makes of a life.
abbrev pub tried : ℕ → List Job → Option (JobStatus × ℕ) → Option (JobStatus × ℕ)
tried id [] l = l
tried id (j ∷ js) l = tried id js (if j.id == id then failed_life l else l)

abbrev pub times : ℕ → List Job → ℕ
times id js = length (select (λ (j : Job). j.id == id) js)

pub tried_never :
    (id : ℕ) (js : List Job) (l : Option (JobStatus × ℕ)) → times id js ≡ 0 → tried id js l ≡ l
tried_never id [] l h = refl
tried_never id (j ∷ js) l h = elim (Bool-cases (j.id == id)) [
  | inl e ↦ absurd (ground (arith, e, h))
  | inr e ↦ rw e (tried_never id js l (rw e at h))
]

pub tried_once :
    (id : ℕ) (js : List Job) (l : Option (JobStatus × ℕ))
    → times id js ≡ 1
    → tried id js l ≡ failed_life l
tried_once id [] l h = absurd (cc)
tried_once id (j ∷ js) l h = elim (Bool-cases (j.id == id)) [
  | inl e ↦
      let rest : times id js ≡ 0 = ground (arith, e, h) in
      rw e (tried_never id js (failed_life l) rest)
  | inr e ↦ rw e (tried_once id js l (rw e at h))
]

settled :
    (env : Env) (job : Job) (l : Option (JobStatus × ℕ)) (x : Result (Unit {0}) × World)
    → x.0 ≡ fail_result l
    → ((recovered env job (dropped x)).0 ≡ ok tt)
      × ((recovered env job (dropped x)).1.tables ≡ x.1.tables)
unfolding fail_result
settled env job l (ok u, w) h = (refl, refl)
settled env job l (err e, w) h = (refl, refl)
settled env job none (panicked p, w) h = absurd (cc)
settled env job (some m) (panicked p, w) h = absurd (cc)

-- The clock moves on by less than five seconds over five calls in a row.
abbrev pub IsBrisk : (ℕ → ℕ) → Type 0
IsBrisk clock = (n k : ℕ) → k < 5 → clock (n + k) < clock n + 5

module _ (clock : ℕ → ℕ) (arrange : List Job → List Job) (brisk : IsBrisk clock) where
  abbrev pub works : Env
  works = reliable clock arrange

  fail-IsFit :
      (test : String → Bool) (id : ℕ) (payload : String) (w : World)
      → IsFit test w.tables.jobs.rows
      → IsFit test (Queue.fail works id payload w).1.tables.jobs.rows
  unfolding Queue.fail
  fail-IsFit test id payload w h =
      let buried : Job → Job =
        λ j. record j { status = failed; updated_at = clock (w.tick + 1 + 1 + 1) } in
      let rows = w.tables.jobs.rows in
      let after = (Queue.fail works id payload w).1.tables.jobs.rows in
      elim (Option-cases (row_of id rows)) [
        | inl k ↦ let same : after ≡ rows = ground (arith, k) in subst (IsFit test) (sym same) h
        | inr (j, k) ↦ elim (Bool-cases (leb max_retries j.retry_count)) [
          | inl l ↦
              let same : after ≡ update_where (λ (i : Job). i.id == id) buried rows =
                ground (arith, k, l) in
              subst (IsFit test) (sym same)
                (IsFit-update test (λ (i : Job). i.id == id) buried rows (λ i. refl) (λ i. refl) h)
          | inr l ↦
              let same : after ≡ update_where (λ (i : Job). i.id == id) retried rows =
                ground (arith, k, l) in
              subst (IsFit test) (sym same)
                (IsFit-update test (λ (i : Job). i.id == id) retried rows (λ i. refl) (λ i. refl) h)
        ]
      ]

  module _ (dispatch : Dispatch) (test : String → Bool) (reason : Job → Error)
      (fails : (job : Job) (w : World)
        → test job.stage ≡ true
        → dispatch job w ≡ (err (reason job), w)) where
    process_failing :
        (job : Job) (w : World)
        → test job.stage ≡ true
        → ((process_job_safe works dispatch job w).0 ≡ ok tt)
          × ((process_job_safe works dispatch job w).1.tables
              ≡ (Queue.fail works job.id (error_text (reason job)) w).1.tables)
    unfolding process_job_safe
    process_failing job w e =
        let c = cleanup works (clock w.tick) in
        let quick : (k : ℕ) → k < 5 → c.fault (w.tick + k) ≡ none = λ k h.
          let soon : leb (clock w.tick + 5) (clock (w.tick + k)) ≡ false =
            ground (arith, brisk w.tick k h) in
          rw soon refl in
        rw (fails job w e, fail_quick c job.id (error_text (reason job)) w quick)
          (settled c job (life job.id w.tables)
            (Queue.fail works job.id (error_text (reason job)) w)
            (fail_result-eq clock arrange job.id (error_text (reason job)) w))

    process_life :
        (id : ℕ) (job : Job) (w : World)
        → test job.stage ≡ true
        → life id (process_job_safe works dispatch job w).1.tables
          ≡ (if job.id == id then failed_life (life id w.tables) else life id w.tables)
    process_life id job w e =
        let payload = error_text (reason job) in
        let (result, own, letters, others) = fail_lem clock arrange job.id payload w in
        ap (life id) (process_failing job w e).1 ∙ elim (Bool-cases (job.id == id)) [
          | inl same ↦ let this : id ≡ job.id = ground (arith, same) in rw same (rw this own)
          | inr other ↦
              let ne : (id == job.id) ≡ false = ground (arith, other) in rw other (others id ne)
        ]

    -- What a batch leaves, whose jobs all fail.
    pub process_jobs_fail :
        (id : ℕ) (js : List Job) (w : World)
        → All (λ (j : Job). test j.stage ≡ true) js
        → IsFit test w.tables.jobs.rows
        → ((process_jobs works dispatch js w).0 ≡ ok tt)
          × (life id (process_jobs works dispatch js w).1.tables ≡ tried id js (life id w.tables))
          × IsFit test (process_jobs works dispatch js w).1.tables.jobs.rows
    unfolding process_jobs
    process_jobs_fail id [] w h fit = (refl, refl, fit)
    process_jobs_fail id (j ∷ js) w h fit =
        let x = process_job_safe works dispatch j w in
        let (done, same) = process_failing j w h.0 in
        let fit' : IsFit test x.1.tables.jobs.rows =
          subst (λ t. IsFit test t.jobs.rows) (sym same)
            (fail-IsFit test j.id (error_text (reason j)) w fit) in
        let (ends, lived, kept) = process_jobs_fail id js x.1 h.1 fit' in
        rw done (ends, lived ∙ ap (tried id js) (process_life id j w h.0), kept)
