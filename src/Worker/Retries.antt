-- ===== src/Worker/Retries.antt =====
-- internal/worker/daemon.go with internal/queue/sqlite_queue.go: how often a job is tried.
use prowiki.Base.{
  ℕ, zero, suc, ◌+◌, ◌<◌, leb, ◌≡◌, refl, ap, ◌∙◌, some, Option, List, [], ◌∷◌, arith, Bool, true,
  false, not, String, All, All-imp, All-map, All-select, length, select, map, Bool-cases, inl, inr,
}
use prowiki.Domain.Errors.{Error, err}
use prowiki.Domain.Enums.{JobStatus, pending, failed}
use prowiki.Domain.Entities.{Job}
use prowiki.Db.Io.{World, reliable}
use prowiki.Queue
use prowiki.Queue.{max_retries}
use prowiki.Queue.Life.{life, failed_life}
use prowiki.Store.Jobs.{candidates, is_among, claim, scanned, claim_rows, claimed_rows}
use prowiki.Worker.{Dispatch, process_batch, start, batch_limit}
use prowiki.Worker.Failing.{IsFit, IsFit-update, IsBrisk, process_jobs_fail}
use prowiki.Worker.Claiming.{polled, batch_life}

-- RETURNING gives each row once, in any order.
abbrev pub IsArranging : (List Job → List Job) → Type 0
IsArranging arrange =
    (p : Job → Bool) (js : List Job) → length (select p (arrange js)) ≡ length (select p js)

none_fails :
    (p : Job → Bool) (js : List Job)
    → All (λ j. p j ≡ true) js
    → length (select (λ j. not (p j)) js) ≡ 0
none_fails p [] h = refl
none_fails p (j ∷ js) h = ground (arith, h.0, none_fails p js h.1)

All-of_none :
    (p : Job → Bool) (js : List Job)
    → length (select (λ j. not (p j)) js) ≡ 0
    → All (λ j. p j ≡ true) js
All-of_none p [] h = tt
All-of_none p (j ∷ js) h = elim (Bool-cases (p j)) [
  | inl e ↦ (e, All-of_none p js (ground (arith, e, h)))
  | inr e ↦ absurd (ground (arith, e, h))
]

-- What so many polls make of a life, where every job fails.
abbrev polls : ℕ → Option (JobStatus × ℕ) → Option (JobStatus × ℕ)
polls zero l = l
polls (suc n) l = polls n (polled l)

polls_pending :
    (n k : ℕ) → n + k < 3 → polls (suc n) (some (pending, k)) ≡ some (pending, suc n + k)
unfolding failed_life
polls_pending zero k h = ground arith
polls_pending (suc n) k h =
    let low : leb max_retries k ≡ false = ground arith in
    rw low (polls_pending n (k + 1) (omega arith) ∙ ap (λ (m : ℕ). some (pending, m)) (omega arith))

polls_four : polls 4 (some (pending, 0)) ≡ some (failed, 3)
unfolding failed_life
polls_four = refl

module _ (clock : ℕ → ℕ) (arrange : List Job → List Job) (brisk : IsBrisk clock)
    (arranging : IsArranging arrange) (dispatch : Dispatch) (test : String → Bool)
    (reason : Job → Error)
    (fails : (job : Job) (w : World)
      → test job.stage ≡ true
      → dispatch job w ≡ (err (reason job), w)) where
  poll-life :
      (id : ℕ) (w : World)
      → IsFit test w.tables.jobs.rows
      → (life id (process_batch (reliable clock arrange) dispatch w).1.tables
          ≡ polled (life id w.tables))
        × IsFit test (process_batch (reliable clock arrange) dispatch w).1.tables.jobs.rows
  unfolding process_batch Queue.claim_batch life claim_rows
  poll-life id w fit =
      let rows = w.tables.jobs.rows in
      let now = clock (w.tick + 1) in
      let js = arrange (claimed_rows 10 now rows) in
      let claimed = (Queue.claim_batch (reliable clock arrange) batch_limit w).1 in
      let (ends, lived, kept) =
        process_jobs_fail clock arrange brisk dispatch test reason fails id js claimed
          (All-of_none (λ j. test j.stage) js
            (arranging (λ j. not (test j.stage)) (claimed_rows 10 now rows)
              ∙ none_fails (λ j. test j.stage) (claimed_rows 10 now rows)
                  (claimed_pass rows now fit.each)))
          (IsFit-update test (is_among (candidates 10 rows)) (claim now) rows (λ j. refl)
            (λ j. refl) fit) in
      (
        lived
            ∙ batch_life id now rows js fit.distinct fit.few
                (arranging _ (claimed_rows 10 now rows)),
        kept,
      )
    where
      claimed_pass :
          (rows : List Job) (now : ℕ)
          → All (λ (j : Job). test j.stage ≡ true) rows
          → All (λ (j : Job). test j.stage ≡ true) (claimed_rows 10 now rows)
      claimed_pass rows now h =
          unfold claimed_rows in
          All-map (λ (j : Job). test j.stage ≡ true) scanned
            (map (claim now) (select (is_among (candidates 10 rows)) rows))
            (All-map (λ (j : Job). test j.stage ≡ true) (claim now)
              (select (is_among (candidates 10 rows)) rows)
              (All-select (λ (j : Job). test j.stage ≡ true) (is_among (candidates 10 rows)) rows
                (All-imp (λ j e _. e) rows h)))

  start-life :
      (n id : ℕ) (w : World)
      → IsFit test w.tables.jobs.rows
      → life id (start n (reliable clock arrange) dispatch w).1.tables ≡ polls n (life id w.tables)
  unfolding start process_batch
  start-life zero id w fit = refl
  start-life (suc n) id w fit =
      let next = (process_batch (reliable clock arrange) dispatch w).1 in
      let (lived, kept) = poll-life id w fit in start-life n id next kept ∙ ap (polls n) lived

  pub failing_job_dies :
      (id : ℕ) (w : World)
      → IsFit test w.tables.jobs.rows
      → life id w.tables ≡ some (pending, 0)
      → ((n : ℕ)
          → n < 3
          → life id (start (suc n) (reliable clock arrange) dispatch w).1.tables
            ≡ some (pending, suc n))
        × (life id (start 4 (reliable clock arrange) dispatch w).1.tables ≡ some (failed, 3))
  failing_job_dies id w fit first = (
    λ n h.
        start-life (suc n) id w fit
        ∙ ap (polls (suc n)) first
        ∙ polls_pending n 0 (omega arith)
        ∙ ap (λ (m : ℕ). some (pending, m)) (omega arith),
    start-life 4 id w fit ∙ ap (polls 4) first ∙ polls_four,
  )
