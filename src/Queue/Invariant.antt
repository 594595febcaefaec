-- ===== src/Queue/Invariant.antt =====
-- internal/queue/sqlite_queue.go: what holds of the queue between any two calls.
use prowiki.Base.{
  ℕ, suc, String, ◌≡◌, refl, ap, sym, subst, true, false, not, List, [], ◌∷◌, All, All-imp, ◌==◌,
  leb, arith, Bool-cases, inl, inr, Option, some, none, first_where,
}
use prowiki.Domain.Enums.{failed}
use prowiki.Domain.Entities.{Job, DeadLetterItem}
use prowiki.Db.Schema.{Tables}
use prowiki.Db.Io.{Env, statement}
use prowiki.Db.Keeps.{Keeps}
use prowiki.Db.Ensures.{Ensures, Yields, Ensures-statement, Ensures-bind, Ensures-if}
use prowiki.Txn.{TxFunc}
use prowiki.Txn.Keeps.{Keeps-immediate}
use prowiki.Store.DeadLetters
use prowiki.Store.Jobs.{is_status}
use prowiki.Store.Jobs.Order.{HasDistinctIds}
use prowiki.Store.Jobs.Sound.{
  IsSound, IsSoundQueue, IsSoundJob, Keeping, has_letter, update-IsSound, claim_batch-IsSound,
  update_status-IsSound, enqueue_many-IsSound, select-IsSound, letter-IsSound,
}
use prowiki.Queue.Rules.{IsFramed}
use prowiki.Queue.{
  claim_batch, complete, fail, enqueue, max_retries, delete_query, run_handler, retry_count_query,
  retry_query, retried,
}

-- The invariant is about the jobs and the dead letters alone.
pub IsSound-IsFramed : IsFramed IsSound
IsSound-IsFramed t t' jobs letters h =
    subst (λ ls. IsSoundQueue t'.jobs ls.rows) (sym letters)
      (subst (λ js. IsSoundQueue js t.dead_letters.rows) (sym jobs) h)

pub claim_batch-IsSound_kept : (env : Env) (limit : ℕ) → Keeps IsSound (claim_batch env limit)
unfolding claim_batch
claim_batch-IsSound_kept env limit = Keeps-immediate env _ (claim_batch-IsSound env limit)

pub enqueue-IsSound : (env : Env) (js : List Job) → Keeps IsSound (enqueue env js)
unfolding enqueue
enqueue-IsSound env js = Keeps-immediate env _ (enqueue_many-IsSound env js)

run_handler-IsSound :
    (fn : TxFunc) → Ensures IsSound fn Keeping → Ensures IsSound (run_handler (some fn)) Keeping
run_handler-IsSound fn k = k

pub complete-IsSound :
    (env : Env) (id : ℕ) (fn : TxFunc)
    → Ensures IsSound fn Keeping
    → Keeps IsSound (complete env id (some fn))
unfolding complete
complete-IsSound env id fn k = Keeps-immediate env _ (
    Ensures-bind Keeping Keeping fn _ k λ _.
      Ensures-statement Keeping env (delete_query id)
        λ now t s. select-IsSound (λ (j : Job). not (j.id == id)) t s)

-- The rows with the id were retried `count` times.
abbrev pub RetriedTimes : ℕ → ℕ → Tables → Type 0
RetriedTimes id count t =
    IsSound t × All (λ (j : Job). (j.id == id) ≡ true → j.retry_count ≡ count) t.jobs.rows

no_other :
    (id : ℕ) (j : Job) (rows : List Job)
    → (j.id == id) ≡ true
    → All (λ (k : Job). (k.id == j.id) ≡ false) rows
    → All (λ (k : Job). (k.id == id) ≡ true → k.retry_count ≡ j.retry_count) rows
no_other id j [] e d = tt
no_other id j (k ∷ rows) e d = (ground arith, no_other id j rows e d.1)

retry_count_of :
    (id : ℕ) (rows : List Job) (j : Job)
    → HasDistinctIds rows
    → first_where (λ (k : Job). k.id == id) rows ≡ some j
    → All (λ (k : Job). (k.id == id) ≡ true → k.retry_count ≡ j.retry_count) rows
retry_count_of id [] j d e = tt
retry_count_of id (k ∷ rows) j d e = elim (Bool-cases (k.id == id)) [
  | inl same ↦
      let found : some k ≡ some j = rw same at e in
      let this : k ≡ j = cc in
      (
        (λ _. ap (λ (r : Job). r.retry_count) this),
        subst
            (λ (r : Job).
              All (λ (l : Job). (l.id == id) ≡ true → l.retry_count ≡ r.retry_count) rows)
            this (no_other id k rows same d.0),
      )
  | inr other ↦ ((λ h. absurd (cc)), retry_count_of id rows j d.1 (rw other at e))
]

abbrev pub Buried : ℕ → ℕ → Tables → Type 0
Buried id _ t =
    IsSound t × (is_status failed failed ≡ true → has_letter t.dead_letters.rows id ≡ true)

pub bury-Buried :
    (env : Env) (id count : ℕ) (payload reason : String)
    → Ensures (RetriedTimes id count) (DeadLetters.create env id payload reason) (Buried id)
unfolding DeadLetters.create
bury-Buried env id count payload reason =
    Ensures-statement (Buried id) env (DeadLetters.insert_item id payload reason)
      λ now t h. let (s, told) = letter-IsSound t (suc t.dead_letters.seq) _ h.0 in (s, (λ _. told))

retried-IsSoundJob :
    (id count seq : ℕ) (letters : List DeadLetterItem)
    → leb max_retries count ≡ false
    → (j : Job) → ((j.id == id) ≡ true → j.retry_count ≡ count)
    → (j.id == id) ≡ true
    → IsSoundJob seq letters j
    → IsSoundJob seq letters (retried j)
retried-IsSoundJob id count seq letters low j n e k = record {
  issued = k.issued;
  bounded = let times = n e in ground arith;
  buried = λ f. absurd (cc);
}

pub retry-Keeping :
    (env : Env) (id count : ℕ)
    → leb max_retries count ≡ false
    → Ensures (RetriedTimes id count) (statement env (retry_query id)) Keeping
unfolding retry_query
retry-Keeping env id count low = Ensures-statement Keeping env (retry_query id) λ now t h.
    update-IsSound (λ (j : Job). j.id == id) retried t (λ j. refl)
      (All-imp (retried-IsSoundJob id count t.jobs.seq t.dead_letters.rows low) t.jobs.rows h.1) h.0

pub count-RetriedTimes :
    (env : Env) (id : ℕ) → Ensures IsSound (statement env (retry_count_query id)) (RetriedTimes id)
unfolding retry_count_query
count-RetriedTimes env id =
    Ensures-statement (RetriedTimes id) env (retry_count_query id) λ now t s. found t s _ refl
  where
    found :
        (t : Tables)
        → IsSound t
        → (o : Option Job) → first_where (λ (j : Job). j.id == id) t.jobs.rows ≡ o
        → Yields (RetriedTimes id) (retry_count_query id 0 t)
    found t s none e = rw (e, retry_count_query) tt
    found t s (some j) e =
        rw (e, retry_count_query) (s, retry_count_of id t.jobs.rows j s.distinct e)

pub fail-IsSound : (env : Env) (id : ℕ) (payload : String) → Keeps IsSound (fail env id payload)
unfolding fail
fail-IsSound env id payload = Keeps-immediate env _ (
    Ensures-bind (RetriedTimes id) Keeping _ _ (count-RetriedTimes env id) λ count.
      Ensures-if Keeping (leb max_retries count) _ _
        (λ _.
          Ensures-bind (Buried id) Keeping _ _
            (bury-Buried env id count payload "max retries exceeded")
            (λ _. update_status-IsSound env id failed))
        (retry-Keeping env id count))
