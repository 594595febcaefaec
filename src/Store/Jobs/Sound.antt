-- ===== src/Store/Jobs/Sound.antt =====
-- internal/store/job_store.go: what holds of the rows of `job_queue` between any two calls, and the
-- forms of UPDATE and INSERT that keep it.
use prowiki.Base.{
  Bool-cases, inl, inr, ℕ, ◌≤◌, suc, ◌≡◌, refl, Bool, true, false, List, [], ◌∷◌, ◌++◌, All,
  All-imp, All-of_each, All-append, All-update_where, All-zip, All-select, select, ◌==◌, arith,
  if◌then◌else◌, exists_where, update_where,
}
use prowiki.Domain.Enums.{JobStatus, failed}
use prowiki.Domain.Entities.{Job, DeadLetterItem}
use prowiki.Db.Schema.{Table, Tables, insert, has_project}
use prowiki.Db.Io.{Env}
use prowiki.Db.Ensures.{Ensures, Yields, Ensures-pure, Ensures-statement}
use prowiki.Store.Jobs.{
  has_status, is_status, is_among, candidates, claim, claim_query, claim_batch, new_row,
  insert_jobs, enqueue_many, is_completed_for, reset_query, reset_completed_for_target,
  update_status_query, update_status,
}
use prowiki.Store.Jobs.Order.{HasDistinctIds, Differs, select-HasDistinctIds}

-- `dead_letter_queue` has an item for the job.
abbrev pub has_letter : List DeadLetterItem → ℕ → Bool
has_letter letters id = exists_where (λ (d : DeadLetterItem). d.job_id == id) letters

-- One row: its id was issued, it was retried at most three times, and it is `failed` only if a dead
-- letter tells of it.
pub record IsSoundJob (seq : ℕ) (letters : List DeadLetterItem) (j : Job) : Type 0 where
  pub issued : j.id ≤ seq
  pub bounded : j.retry_count ≤ 3
  pub buried : has_status failed j ≡ true → has_letter letters j.id ≡ true

pub record IsSoundQueue (jobs : Table Job) (letters : List DeadLetterItem) : Type 0 where
  pub distinct : HasDistinctIds jobs.rows
  pub each : All (IsSoundJob jobs.seq letters) jobs.rows

-- No two jobs have one id, and each row is sound.
abbrev pub IsSound : Tables → Type 0
IsSound t = IsSoundQueue t.jobs t.dead_letters.rows

pub HasDistinctIds-update :
    (p : Job → Bool) (f : Job → Job) (rows : List Job)
    → ((j : Job) → (f j).id ≡ j.id)
    → HasDistinctIds rows
    → HasDistinctIds (update_where p f rows)
HasDistinctIds-update p f [] same d = tt
HasDistinctIds-update p f (j ∷ rows) same d = (
  All-update_where (Differs (if p j then f j else j)) p f rows
      (All-imp (λ k h. apart k (p j) (p k) h) rows d.0),
  HasDistinctIds-update p f rows same d.1,
)
  where
    apart :
        (k : Job) (b c : Bool) → Differs j k → Differs (if b then f j else j) (if c then f k else k)
    apart k b c h = ground (arith, same j, same k)

-- An UPDATE that keeps ids keeps the invariant, if it keeps it for the rows that it changes.
pub update-IsSound :
    (p : Job → Bool) (f : Job → Job) (t : Tables)
    → ((j : Job) → (f j).id ≡ j.id)
    → All
        (λ j.
          p j ≡ true
          → IsSoundJob t.jobs.seq t.dead_letters.rows j
          → IsSoundJob t.jobs.seq t.dead_letters.rows (f j))
        t.jobs.rows
    → IsSound t
    → IsSound (record t { jobs = record { rows = update_where p f t.jobs.rows; seq = t.jobs.seq } })
update-IsSound p f t same k s = record {
  distinct = HasDistinctIds-update p f t.jobs.rows same s.distinct;
  each = All-update_where (IsSoundJob t.jobs.seq t.dead_letters.rows) p f t.jobs.rows (
      All-imp (λ j h. changed j (p j) refl h.0 h.1) t.jobs.rows (All-zip _ _ t.jobs.rows k s.each));
}
  where
    changed :
        (j : Job) (b : Bool)
        → p j ≡ b
        → (p j ≡ true
            → IsSoundJob t.jobs.seq t.dead_letters.rows j
            → IsSoundJob t.jobs.seq t.dead_letters.rows (f j))
        → IsSoundJob t.jobs.seq t.dead_letters.rows j
        → IsSoundJob t.jobs.seq t.dead_letters.rows (if b then f j else j)
    changed j true e k h = k e h
    changed j false e k h = h

abbrev pub Keeping : {A : Type 0} → A → Tables → Type 0
Keeping a = IsSound

pub claim_batch-IsSound : (env : Env) (limit : ℕ) → Ensures IsSound (claim_batch env limit) Keeping
unfolding claim_batch
claim_batch-IsSound env limit = Ensures-statement Keeping env (claim_query env limit) λ now t s.
    update-IsSound (is_among (candidates limit t.jobs.rows)) (claim now) t (λ j. refl)
      (All-of_each
        (λ j _ h. record { issued = h.issued; bounded = h.bounded; buried = λ e. absurd (cc) })
        t.jobs.rows)
      s

-- A status other than `failed` is always kept; `failed` needs a dead letter.
pub update_status-IsSound :
    (env : Env) (id : ℕ) (status : JobStatus)
    → Ensures
        (λ t.
          IsSound t × (is_status failed status ≡ true → has_letter t.dead_letters.rows id ≡ true))
        (update_status env id status)
        Keeping
unfolding update_status
update_status-IsSound env id status =
    Ensures-statement Keeping env (update_status_query id status) λ now t h.
      update-IsSound (λ (j : Job). j.id == id) _ t (λ j. refl)
        (All-of_each
          (λ j e k. record { issued = k.issued; bounded = k.bounded; buried = ground (arith, h.1) })
          t.jobs.rows)
        h.0

pub reset-IsSound :
    (env : Env) (target : ℕ) → Ensures IsSound (reset_completed_for_target env target) Keeping
unfolding reset_completed_for_target
reset-IsSound env target = Ensures-statement Keeping env (reset_query target) λ now t s.
    update-IsSound (is_completed_for target) _ t (λ j. refl)
      (All-of_each
        (λ j _ h. record { issued = h.issued; bounded = h.bounded; buried = λ e. absurd (cc) })
        t.jobs.rows)
      s

HasDistinctIds-append :
    (rows : List Job) (x : Job)
    → All (λ j. Differs j x) rows
    → HasDistinctIds rows
    → HasDistinctIds (rows ++ x ∷ [])
HasDistinctIds-append [] x n d = (tt, tt)
HasDistinctIds-append (j ∷ rows) x n d =
    (All-append (Differs j) rows (x ∷ []) d.0 (n.0, tt), HasDistinctIds-append rows x n.1 d.1)

pub new_row-IsSound :
    (now : ℕ) (j : Job) (t : Tables)
    → IsSound t
    → IsSound (record t { jobs = insert (new_row now j) t.jobs })
new_row-IsSound now j t s = record {
  distinct =
      HasDistinctIds-append t.jobs.rows _
        (All-imp (λ (k : Job) (h : IsSoundJob t.jobs.seq t.dead_letters.rows k). fresh k h)
          t.jobs.rows s.each)
        s.distinct;
  each =
      All-append (IsSoundJob (suc t.jobs.seq) t.dead_letters.rows) t.jobs.rows _
        (All-imp
          (λ (k : Job) (h : IsSoundJob t.jobs.seq t.dead_letters.rows k). record {
            issued = older k h.issued;
            bounded = h.bounded;
            buried = h.buried;
          })
          t.jobs.rows s.each)
        (record { issued = omega arith; bounded = omega arith; buried = λ e. absurd (cc) }, tt);
}
  where
    fresh :
        (k : Job) → IsSoundJob t.jobs.seq t.dead_letters.rows k → (suc t.jobs.seq == k.id) ≡ false
    fresh k h = let le = h.issued in ground arith

    older : (k : Job) → k.id ≤ t.jobs.seq → k.id ≤ suc t.jobs.seq
    older k h = omega arith

insert_jobs-IsSound :
    (js : List Job) (now : ℕ) (t : Tables) → IsSound t → Yields Keeping (insert_jobs js now t)
unfolding insert_jobs
insert_jobs-IsSound [] now t s = s
insert_jobs-IsSound (j ∷ js) now t s = elim (Bool-cases (has_project t j.project_id)) [
  | inl e ↦ rw (e, insert_jobs) (insert_jobs-IsSound js now _ (new_row-IsSound now j t s))
  | inr e ↦ rw (e, insert_jobs) tt
]

pub enqueue_many-IsSound :
    (env : Env) (js : List Job) → Ensures IsSound (enqueue_many env js) Keeping
unfolding enqueue_many
enqueue_many-IsSound env [] = Ensures-pure Keeping tt (λ t s. s)
enqueue_many-IsSound env (j ∷ js) =
    Ensures-statement Keeping env (insert_jobs (j ∷ js)) (insert_jobs-IsSound (j ∷ js))

pub select-IsSound :
    (p : Job → Bool) (t : Tables)
    → IsSound t
    → IsSound (record t { jobs = record { rows = select p t.jobs.rows; seq = t.jobs.seq } })
select-IsSound p t s = record {
  distinct = select-HasDistinctIds p t.jobs.rows s.distinct;
  each = All-select _ p t.jobs.rows (All-imp (λ j h _. h) t.jobs.rows s.each);
}

has_letter-append :
    (letters : List DeadLetterItem) (d : DeadLetterItem) (id : ℕ)
    → has_letter letters id ≡ true
    → has_letter (letters ++ d ∷ []) id ≡ true
has_letter-append [] d id h = absurd (cc)
has_letter-append (e ∷ letters) d id h = ground (arith, has_letter-append letters d id)

has_letter-append_last :
    (letters : List DeadLetterItem) (d : DeadLetterItem)
    → has_letter (letters ++ d ∷ []) d.job_id ≡ true
has_letter-append_last [] d = ground arith
has_letter-append_last (e ∷ letters) d = ground (arith, has_letter-append_last letters d)

-- A new dead letter keeps the invariant, and tells of its job.
pub letter-IsSound :
    (t : Tables) (seq : ℕ) (d : DeadLetterItem)
    → IsSound t
    → (IsSound
        (record t { dead_letters = record { rows = t.dead_letters.rows ++ d ∷ []; seq = seq } }))
      × (has_letter (t.dead_letters.rows ++ d ∷ []) d.job_id ≡ true)
letter-IsSound t seq d s = (
  record {
    distinct = s.distinct;
    each =
        All-imp
          (λ (j : Job) (h : IsSoundJob t.jobs.seq t.dead_letters.rows j). record {
            issued = h.issued;
            bounded = h.bounded;
            buried = λ e. has_letter-append t.dead_letters.rows d j.id (h.buried e);
          })
          t.jobs.rows s.each;
  },
  has_letter-append_last t.dead_letters.rows d,
)
