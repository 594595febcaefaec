-- ===== src/Queue/Life.antt =====
-- internal/queue/sqlite_queue.go: the life of one job, as its row tells it.
use prowiki.Base.{
  ℕ, ◌+◌, suc, String, ◌≡◌, refl, false, List, [], ◌∷◌, ◌++◌, ◌==◌, leb, arith, if◌then◌else◌,
  Option, some, none, first_where, update_where, delete_where, Option-cases, inl, inr,
}
use mathlib.Core.List.{append-nil}
use prowiki.Domain.Errors.{Error, Result, ok, err}
use prowiki.Domain.Enums.{JobStatus, pending, failed}
use prowiki.Domain.Entities.{Job, DeadLetterItem}
use prowiki.Db.Schema.{Tables}
use prowiki.Db.Io.{World, reliable}
use prowiki.Queue.{fail, max_retries, retried}

abbrev pub row_of : ℕ → List Job → Option Job
row_of id rows = first_where (λ (j : Job). j.id == id) rows

-- Status and number of retries, while the job has a row.
abbrev pub summary : Option Job → Option (JobStatus × ℕ)
summary none = none
summary (some j) = some (j.status, j.retry_count)

unfoldable pub life : ℕ → Tables → Option (JobStatus × ℕ)
life id t = summary (row_of id t.jobs.rows)

-- What a failure makes of a life.
unfoldable pub failed_life : Option (JobStatus × ℕ) → Option (JobStatus × ℕ)
failed_life none = none
failed_life (some (s, n)) = if leb max_retries n then some (failed, n) else some (pending, n + 1)

abbrev pub map_option : (Job → Job) → Option Job → Option Job
map_option f none = none
map_option f (some j) = some (f j)

pub row_of-update :
    (id : ℕ) (f : Job → Job) (rows : List Job)
    → ((j : Job) → (f j).id ≡ j.id)
    → row_of id (update_where (λ (j : Job). j.id == id) f rows) ≡ map_option f (row_of id rows)
row_of-update id f [] same = refl
row_of-update id f (j ∷ rows) same = ground (arith, same j, row_of-update id f rows same)

pub row_of-update_ne :
    (id other : ℕ) (f : Job → Job) (rows : List Job)
    → ((j : Job) → (f j).id ≡ j.id)
    → (other == id) ≡ false
    → row_of other (update_where (λ (j : Job). j.id == id) f rows) ≡ row_of other rows
row_of-update_ne id other f [] same ne = refl
row_of-update_ne id other f (j ∷ rows) same ne =
    ground (arith, same j, row_of-update_ne id other f rows same ne)

pub row_of-delete :
    (id : ℕ) (rows : List Job) → row_of id (delete_where (λ (j : Job). j.id == id) rows) ≡ none
row_of-delete id [] = refl
row_of-delete id (j ∷ rows) = ground (arith, row_of-delete id rows)

pub row_of-delete_ne :
    (id other : ℕ) (rows : List Job)
    → (other == id) ≡ false
    → row_of other (delete_where (λ (j : Job). j.id == id) rows) ≡ row_of other rows
row_of-delete_ne id other [] ne = refl
row_of-delete_ne id other (j ∷ rows) ne = ground (arith, row_of-delete_ne id other rows ne)

-- The dead letters that a failure writes.
unfoldable pub letters_for : ℕ → String → ℕ → ℕ → Option (JobStatus × ℕ) → List DeadLetterItem
letters_for id payload now letter none = []
letters_for id payload now letter (some (s, n)) =
    if leb max_retries n
    then record {
      id = letter;
      job_id = id;
      payload = payload;
      reason = "max retries exceeded";
      created_at = now;
    }
      ∷ []
    else []

unfoldable pub fail_result : Option (JobStatus × ℕ) → Result (Unit {0})
fail_result none = err Error.no_rows
fail_result (some l) = ok tt

module _ (clock : ℕ → ℕ) (arrange : List Job → List Job) (id : ℕ) (payload : String)
    (w : World) where
  abbrev pub after : Tables
  after = (fail (reliable clock arrange) id payload w).1.tables

  -- The time of the last statement of `Fail`.
  abbrev end : ℕ
  end = clock (w.tick + 1 + 1 + 1)

  abbrev buried : Job → Job
  buried j = record j { status = failed; updated_at = end }

  pub fail_life-one : life id after ≡ failed_life (life id w.tables)
  unfolding fail life failed_life
  fail_life-one = elim (Option-cases (row_of id w.tables.jobs.rows)) [
    | inl e ↦ ground (arith, e)
    | inr (j, e) ↦ ground (
      arith,
      e,
      row_of-update id retried w.tables.jobs.rows (λ j. refl),
      row_of-update id buried w.tables.jobs.rows (λ j. refl),
    )
  ]

  fail_life-other : (other : ℕ) → (other == id) ≡ false → life other after ≡ life other w.tables
  unfolding fail life failed_life
  fail_life-other other ne = elim (Option-cases (row_of id w.tables.jobs.rows)) [
    | inl e ↦ ground (arith, e)
    | inr (j, e) ↦ ground (
      arith,
      e,
      row_of-update_ne id other retried w.tables.jobs.rows (λ j. refl) ne,
      row_of-update_ne id other buried w.tables.jobs.rows (λ j. refl) ne,
    )
  ]

  pub fail_result-eq :
      (fail (reliable clock arrange) id payload w).0 ≡ fail_result (life id w.tables)
  unfolding fail life fail_result
  fail_result-eq = elim (Option-cases (row_of id w.tables.jobs.rows)) [
    | inl e ↦ ground (arith, e)
    | inr (j, e) ↦ ground (arith, e)
  ]

  fail_letters :
      after.dead_letters.rows
      ≡ w.tables.dead_letters.rows
        ++ letters_for id payload
            (clock (w.tick + 1 + 1))
            (suc w.tables.dead_letters.seq)
            (life id w.tables)
  unfolding fail life letters_for
  fail_letters = elim (Option-cases (row_of id w.tables.jobs.rows)) [
    | inl e ↦ ground (arith, e, append-nil w.tables.dead_letters.rows)
    | inr (j, e) ↦ ground (arith, e, append-nil w.tables.dead_letters.rows)
  ]

  -- `Fail`, where no call of the database fails: a job with no row is the error `ErrNoRows`. A job
  -- that was retried fewer than three times becomes `pending` with one more retry and no dead
  -- letter; any other becomes `failed`, with its retries as they were and one dead letter, which
  -- holds the given payload. No other job's status or retries change.
  pub fail_lem :
      ((fail (reliable clock arrange) id payload w).0 ≡ fail_result (life id w.tables))
      × (life id after ≡ failed_life (life id w.tables))
      × (after.dead_letters.rows
          ≡ w.tables.dead_letters.rows
            ++ letters_for id payload
                (clock (w.tick + 1 + 1))
                (suc w.tables.dead_letters.seq)
                (life id w.tables))
      × ((other : ℕ) → (other == id) ≡ false → life other after ≡ life other w.tables)
  fail_lem = (fail_result-eq, fail_life-one, fail_letters, fail_life-other)
