-- ===== src/Queue/Phases/Kept.antt =====
-- internal/queue/sqlite_queue.go: each call of the queue, and each daemon over it, moves every job along
-- the machine of its phases.
use prowiki.Base.{
  ℕ, not, ◌+◌, ◌≡◌, refl, sym, subst, true, false, Option, some, none, List, [], ◌∷◌, All, All-imp,
  All-of_each, ◌==◌, leb, arith, String, Bool-cases, inl, inr, first_where,
}
use prowiki.Domain.Errors.{Result, ok, err, panicked}
use prowiki.Domain.Enums.{pending, failed}
use prowiki.Domain.Entities.{Job}
use prowiki.Db.Schema.{Tables, has_project}
use prowiki.Db.Io.{Env, World, Io, statement}
use prowiki.Db.Keeps.{Keeps}
use prowiki.Db.Ensures.{
  Ensures, Post, Yields, Ensures-statement, Ensures-bind, Ensures-if, Ensures-pure,
}
use prowiki.Txn.{TxFunc}
use prowiki.Txn.Keeps.{Keeps-immediate}
use prowiki.Store.DeadLetters
use prowiki.Store.Jobs
use prowiki.Store.Jobs.{
  has_status, is_among, candidates, claim, claim_query, claim_rows, insert_jobs,
}
use prowiki.Store.Jobs.Claim.{All-chosen, All-found}
use prowiki.Store.Jobs.Exclusive.{eq_of_is_status}
use prowiki.Store.Jobs.Sound.{
  IsSound, claim_batch-IsSound, update_status-IsSound, new_row-IsSound, select-IsSound,
}
use prowiki.Queue
use prowiki.Queue.{max_retries, delete_query, retry_count_query, retry_query}
use prowiki.Queue.Invariant.{
  IsSound-IsFramed, RetriedTimes, Buried, count-RetriedTimes, retry-Keeping, bury-Buried,
}
use prowiki.Queue.Rules.{QueueRules}
use prowiki.Queue.Phases.{
  Reach, Moved, phase, phase_in, phase_of_row, live, here, next, claimed, retried, buried,
  Reach-trans,
}
use prowiki.Queue.Phases.Moves.{update_moves, delete_moves, insert_moves}

module _ {A : Type 0} where
  both-Post :
      (Q R : A → Tables → Type 0) (x : Result A × World)
      → Post Q x
      → Post R x
      → Post (λ a t. Q a t × R a t) x
  both-Post Q R (ok a, w) h k = (h, k)
  both-Post Q R (err e, w) h k = tt
  both-Post Q R (panicked p, w) h k = tt

  Ensures-both :
      {P P' : Tables → Type 0} (Q R : A → Tables → Type 0) (m : Io A)
      → Ensures P m Q
      → Ensures P' m R
      → Ensures (λ t. P t × P' t) m (λ a t. Q a t × R a t)
  Ensures-both Q R m k l = record { at = λ w h. both-Post Q R (m w) (k.at w h.0) (l.at w h.1) }

  Ensures-from :
      {P P' : Tables → Type 0} (Q : A → Tables → Type 0) (m : Io A)
      → ((t : Tables) → P' t → P t)
      → Ensures P m Q
      → Ensures P' m Q
  Ensures-from Q m f k = record { at = λ w h. k.at w (f w.tables h) }

claimed_row :
    (now : ℕ) (j : Job)
    → has_status pending j ≡ true
    → Reach (live j.status j.retry_count) (phase_of_row (some (claim now j)))
claimed_row now j h =
    let at : j.status ≡ pending = eq_of_is_status pending j.status h in
    rw at (next here (claimed j.retry_count))

retried_row :
    (j : Job) (count : ℕ)
    → leb max_retries count ≡ false
    → j.retry_count ≡ count
    → Reach (live j.status j.retry_count) (phase_of_row (some (Queue.retried j)))
retried_row j count low e =
    next here (retried j.status j.retry_count (j.retry_count + 1) (ground arith) refl)

buried_row :
    (j : Job) (count : ℕ)
    → leb max_retries count ≡ true
    → j.retry_count ≡ count
    → Reach (live j.status j.retry_count) (live failed j.retry_count)
buried_row j count high e = next here (buried j.status j.retry_count (ground arith))

-- The tables are sound, and their jobs made moves since `start`.
abbrev pub HasMoved : Tables → Tables → Type 0
HasMoved start t = IsSound t × Moved start t

module _ (start : Tables) where
  abbrev P : Tables → Type 0
  P = HasMoved start

  claim_moves : (env : Env) (limit : ℕ) → Ensures P (Jobs.claim_batch env limit) (λ _. Moved start)
  unfolding Jobs.claim_batch claim_query claim_rows
  claim_moves env limit =
      Ensures-statement (λ _. Moved start) env (claim_query env limit)
        λ now t h id. Reach-trans (h.1 id) (
          update_moves (is_among (candidates limit t.jobs.rows)) (claim now) t (λ j. refl)
            (All-imp
              {Q = λ j.
                is_among (candidates limit t.jobs.rows) j ≡ true
                → Reach (live j.status j.retry_count) (phase_of_row (some (claim now j)))}
              (λ j k e. claimed_row now j (k e)) t.jobs.rows
              (All-found limit now t.jobs.rows (λ r. has_status pending r ≡ true) h.0.distinct
                (All-chosen limit now t.jobs.rows (λ r. has_status pending r ≡ true)
                  (All-of_each (λ r e. e) t.jobs.rows))))
            id)

  claim_batch_moves : (env : Env) (limit : ℕ) → Keeps P (Queue.claim_batch env limit)
  unfolding Queue.claim_batch
  claim_batch_moves env limit = Keeps-immediate env _ (
      Ensures-from (λ _. P) (Jobs.claim_batch env limit) (λ t h. (h.0, h))
        (Ensures-both (λ _. IsSound) (λ _. Moved start) (Jobs.claim_batch env limit)
          (claim_batch-IsSound env limit) (claim_moves env limit)))

  complete_moves :
      (env : Env) (x : ℕ) (fn : TxFunc)
      → Ensures P fn (λ _. P)
      → Keeps P (Queue.complete env x (some fn))
  unfolding Queue.complete delete_query
  complete_moves env x fn k = Keeps-immediate env _ (
      Ensures-bind (λ _. P) (λ _. P) fn _ k
        λ _.
          Ensures-statement (λ _. P) env (delete_query x)
            λ now t h. (
              select-IsSound (λ (j : Job). not (j.id == x)) t h.0,
              (λ id. Reach-trans (h.1 id) (delete_moves x t id)),
            ))

  inserted_moves :
      (js : List Job) (now : ℕ) (t : Tables) → P t → Yields (λ _. P) (insert_jobs js now t)
  unfolding insert_jobs
  inserted_moves [] now t h = h
  inserted_moves (j ∷ js) now t h = elim (Bool-cases (has_project t j.project_id)) [
    | inl e ↦
        rw (e, insert_jobs)
          (inserted_moves js now _ (
            new_row-IsSound now j t h.0,
            (λ id. Reach-trans (h.1 id) (insert_moves now j t h.0 id)),
          ))
    | inr e ↦ rw (e, insert_jobs) tt
  ]

  enqueue_many_moves : (env : Env) (js : List Job) → Ensures P (Jobs.enqueue_many env js) (λ _. P)
  unfolding Jobs.enqueue_many
  enqueue_many_moves env [] = Ensures-pure (λ _. P) tt (λ t h. h)
  enqueue_many_moves env (j ∷ js) =
      Ensures-statement (λ _. P) env (insert_jobs (j ∷ js)) (inserted_moves (j ∷ js))

  abbrev Counted : ℕ → ℕ → Tables → Type 0
  Counted x count t = RetriedTimes x count t × Moved start t

  count-Moved :
      (x now : ℕ) (t : Tables)
      → Moved start t
      → (o : Option Job) → first_where (λ (j : Job). j.id == x) t.jobs.rows ≡ o
      → Yields (λ _. Moved start) (retry_count_query x now t)
  unfolding retry_count_query
  count-Moved x now t h none e = rw (e, retry_count_query) tt
  count-Moved x now t h (some j) e = rw (e, retry_count_query) h

  counted : (env : Env) (x : ℕ) → Ensures P (statement env (retry_count_query x)) (Counted x)
  counted env x =
      Ensures-from (Counted x) (statement env (retry_count_query x)) (λ t h. h)
        (Ensures-both (RetriedTimes x) (λ _. Moved start) (statement env (retry_count_query x))
          (count-RetriedTimes env x)
          (Ensures-statement (λ _. Moved start) env (retry_count_query x)
            λ now t h. count-Moved x now t h _ refl))

  retry_moves :
      (env : Env) (x count : ℕ)
      → leb max_retries count ≡ false
      → Ensures (Counted x count) (statement env (retry_query x)) (λ _. P)
  unfolding retry_query
  retry_moves env x count low =
      Ensures-from (λ _. P) (statement env (retry_query x)) (λ t h. (h.0, h))
        (Ensures-both (λ _. IsSound) (λ _. Moved start) (statement env (retry_query x))
          (retry-Keeping env x count low)
          (Ensures-statement (λ _. Moved start) env (retry_query x)
            λ now t h id. Reach-trans (h.1 id) (
              update_moves (λ (j : Job). j.id == x) Queue.retried t (λ j. refl)
                (All-imp
                  {Q = λ j.
                    (j.id == x) ≡ true
                    → Reach (live j.status j.retry_count) (phase_of_row (some (Queue.retried j)))}
                  (λ j k e. retried_row j count low (k e)) t.jobs.rows h.0.1)
                id)))

  -- The dead letter is written, and the job is not marked yet.
  abbrev Told : ℕ → ℕ → ℕ → Tables → Type 0
  Told x count n t =
      Buried x n t
      × (All (λ (j : Job). (j.id == x) ≡ true → j.retry_count ≡ count) t.jobs.rows × Moved start t)

  letter_moves :
      (env : Env) (x count : ℕ) (payload reason : String)
      → Ensures (Counted x count) (DeadLetters.create env x payload reason) (Told x count)
  unfolding DeadLetters.create DeadLetters.insert_item
  letter_moves env x count payload reason =
      let create = DeadLetters.create env x payload reason in
      Ensures-from (Told x count) create (λ t h. (h.0, h))
        (Ensures-both (Buried x) _ create (bury-Buried env x count payload reason) (
          Ensures-statement
            (λ _ t.
              All (λ (j : Job). (j.id == x) ≡ true → j.retry_count ≡ count) t.jobs.rows
              × Moved start t)
            env (DeadLetters.insert_item x payload reason) λ now t h. (h.0.1, h.1)))

  bury_moves :
      (env : Env) (x count n : ℕ)
      → leb max_retries count ≡ true
      → Ensures (Told x count n) (Jobs.update_status env x failed) (λ _. P)
  unfolding Jobs.update_status Jobs.update_status_query
  bury_moves env x count n high =
      let update = Jobs.update_status env x failed in
      Ensures-from (λ _. P) update (λ t h. (h.0, h))
        (Ensures-both (λ _. IsSound) (λ _. Moved start) update (update_status-IsSound env x failed)
          (Ensures-statement (λ _. Moved start) env (Jobs.update_status_query x failed)
            λ now t h id. Reach-trans (h.1.1 id) (
              update_moves (λ (j : Job). j.id == x) _ t (λ j. refl)
                (All-imp
                  {Q = λ j.
                    (j.id == x) ≡ true
                    → Reach (live j.status j.retry_count) (live failed j.retry_count)}
                  (λ j k e. buried_row j count high (k e)) t.jobs.rows h.1.0)
                id)))

  fail_moves : (env : Env) (x : ℕ) (payload : String) → Keeps P (Queue.fail env x payload)
  unfolding Queue.fail Queue.fail_body
  fail_moves env x payload = Keeps-immediate env _ (
      Ensures-bind (Counted x) (λ _. P) _ _ (counted env x)
        λ count.
          Ensures-if (λ _. P) (leb max_retries count) _ _
            (λ high.
              Ensures-bind (Told x count) (λ _. P) _ _
                (letter_moves env x count payload "max retries exceeded")
                (λ n. bury_moves env x count n high))
            (retry_moves env x count))

  pub HasMoved-rules : (env : Env) → QueueRules env P
  HasMoved-rules env = record {
    framed = λ t t' jobs letters h. (
      IsSound-IsFramed t t' jobs letters h.0,
      (λ id. subst (λ js. Reach (phase id start) (phase_in id js)) (sym jobs) (h.1 id)),
    );
    claiming = claim_batch_moves env;
    completing = complete_moves env;
    failing = fail_moves env;
    enqueuing = enqueue_many_moves env;
  }
