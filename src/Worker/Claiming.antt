-- ===== src/Worker/Claiming.antt =====
-- internal/store/job_store.go: the batch of a queue of at most ten jobs.
use prowiki.Base.{
  ℕ, zero, suc, ◌≤◌, ◌≡◌, refl, sym, ap, subst, ◌∙◌, some, none, Option, List, [], ◌∷◌, map, arith,
  Bool, true, false, take, update_where, All, All-imp, All-zip, All-of_each, All-of_select, length,
  select, ◌==◌, if◌then◌else◌, Bool-cases, inl, inr,
}
use prowiki.Domain.Enums.{JobStatus, pending, processing}
use prowiki.Domain.Entities.{Job}
use prowiki.Queue.Life.{failed_life, summary, row_of}
use prowiki.Store.Jobs.{
  is_status, has_status, candidates, order_jobs, is_among, claim, scanned, claim_rows, claimed_rows,
}
use prowiki.Store.Jobs.Order.{HasDistinctIds, is_among_self, All-of_order_jobs}
use prowiki.Store.Jobs.Claim.{All-chosen, All-found}
use prowiki.Store.Jobs.Count.{length-order_jobs}
use prowiki.Worker.Failing.{times, tried, tried_never, tried_once}

take_whole : {A : Type 0} (n : ℕ) (xs : List A) → length xs ≤ n → take n xs ≡ xs
take_whole zero [] h = refl
take_whole zero (x ∷ xs) h = absurd (omega arith)
take_whole (suc n) [] h = refl
take_whole (suc n) (x ∷ xs) h = ap (λ l. x ∷ l) (take_whole n xs (omega arith))

select-le : {A : Type 0} (p : A → Bool) (xs : List A) → length (select p xs) ≤ length xs
select-le p [] = omega arith
select-le p (x ∷ xs) = ground (arith, select-le p xs)

-- Of a queue of at most ten jobs, a batch takes those that are pending.
takes_pending :
    (rows : List Job)
    → HasDistinctIds rows
    → length rows ≤ 10
    → All (λ j. is_among (candidates 10 rows) j ≡ has_status pending j) rows
unfolding candidates
takes_pending rows d few =
    let pool = select (has_status pending) rows in
    let whole : take 10 (order_jobs pool) ≡ order_jobs pool =
      take_whole 10 (order_jobs pool)
        (omega (arith, length-order_jobs pool, select-le (has_status pending) rows)) in
    let all =
      All-of_select (λ j. is_among (candidates 10 rows) j ≡ true) (has_status pending) rows
        (All-of_order_jobs (λ j. is_among (candidates 10 rows) j ≡ true) pool
          (subst (λ l. All (λ j. is_among l j ≡ true) (order_jobs pool)) (sym whole)
            (is_among_self (order_jobs pool)))) in
    let only =
      All-found 10 0 rows (λ j. has_status pending j ≡ true) d
        (All-chosen 10 0 rows (λ j. has_status pending j ≡ true) (All-of_each (λ j e. e) rows)) in
    All-imp (λ j h. same (is_among (candidates 10 rows) j) (has_status pending j) h.0 h.1) rows
      (All-zip _ _ rows all only)
  where
    same : (a b : Bool) → (b ≡ true → a ≡ true) → (a ≡ true → b ≡ true) → a ≡ b
    same true true f g = refl
    same false false f g = refl
    same true false f g = sym (g refl)
    same false true f g = f refl

abbrev hit : (Job → Bool) → Option Job → ℕ
hit p none = 0
hit p (some j) = if p j then 1 else 0

none_other :
    (id : ℕ) (p : Job → Bool) (f : Job → Job) (rows : List Job)
    → ((j : Job) → (f j).id ≡ j.id)
    → All (λ (k : Job). (k.id == id) ≡ false) rows
    → times id (map f (select p rows)) ≡ 0
none_other id p f [] same h = refl
none_other id p f (j ∷ rows) same h = ground (arith, same j, h.0, none_other id p f rows same h.1)

times_selected :
    (id : ℕ) (p : Job → Bool) (f : Job → Job) (rows : List Job)
    → ((j : Job) → (f j).id ≡ j.id)
    → HasDistinctIds rows
    → times id (map f (select p rows)) ≡ hit p (row_of id rows)
times_selected id p f [] same d = refl
times_selected id p f (j ∷ rows) same d = elim (Bool-cases (j.id == id)) [
  | inl e ↦
      let this : j.id ≡ id = ground (arith, e) in
      let rest : times id (map f (select p rows)) ≡ 0 =
        none_other id p f rows same
          (subst (λ n. All (λ (k : Job). (k.id == n) ≡ false) rows) this d.0) in
      ground (arith, e, same j, rest)
  | inr e ↦ ground (arith, e, same j, times_selected id p f rows same d.1)
]

row_of-All :
    (P : Job → Type 0) (id : ℕ) (rows : List Job) (j : Job)
    → All P rows
    → row_of id rows ≡ some j
    → P j
row_of-All P id [] j h e = absurd (cc)
row_of-All P id (k ∷ rows) j h e = elim (Bool-cases (k.id == id)) [
  | inl s ↦ let same : k ≡ j = ground (arith, s, e) in subst P same h.0
  | inr s ↦ row_of-All P id rows j h.1 (ground (arith, s, e))
]

abbrev changed : (Job → Bool) → (Job → Job) → Option Job → Option Job
changed p f none = none
changed p f (some j) = some (if p j then f j else j)

row_of-update_where :
    (id : ℕ) (p : Job → Bool) (f : Job → Job) (rows : List Job)
    → ((j : Job) → (f j).id ≡ j.id)
    → row_of id (update_where p f rows) ≡ changed p f (row_of id rows)
row_of-update_where id p f [] same = refl
row_of-update_where id p f (j ∷ rows) same =
    ground (arith, same j, row_of-update_where id p f rows same)

map_twice :
    {A B C : Type 0} (g : B → C) (f : A → B) (xs : List A)
    → map g (map f xs) ≡ map (λ x. g (f x)) xs
map_twice g f [] = refl
map_twice g f (x ∷ xs) = ap (λ l. g (f x) ∷ l) (map_twice g f xs)

times-claimed_rows :
    (id now : ℕ) (rows : List Job)
    → HasDistinctIds rows
    → times id (claimed_rows 10 now rows) ≡ hit (is_among (candidates 10 rows)) (row_of id rows)
unfolding claimed_rows
times-claimed_rows id now rows d =
    ap (times id) (map_twice scanned (claim now) (select (is_among (candidates 10 rows)) rows))
    ∙ times_selected id (is_among (candidates 10 rows)) (λ j. scanned (claim now j)) rows
        (λ j. refl) d

-- What a poll makes of a life, where every job fails: only a pending job is tried.
abbrev pub polled : Option (JobStatus × ℕ) → Option (JobStatus × ℕ)
polled none = none
polled (some (s, n)) = if is_status pending s then failed_life (some (s, n)) else some (s, n)

-- The claim and the batch of failures together, in whichever order the jobs are returned.
pub batch_life :
    (id now : ℕ) (rows js : List Job)
    → HasDistinctIds rows
    → length rows ≤ 10
    → times id js ≡ times id (claimed_rows 10 now rows)
    → tried id js (summary (row_of id (claim_rows 10 now rows))) ≡ polled (summary (row_of id rows))
unfolding claim_rows failed_life
batch_life id now rows js d few same_jobs = of_row (row_of id rows) refl
  where
    p : Job → Bool
    p = is_among (candidates 10 rows)

    tries : times id js ≡ hit p (row_of id rows)
    tries = same_jobs ∙ times-claimed_rows id now rows d

    row_after : row_of id (claim_rows 10 now rows) ≡ changed p (claim now) (row_of id rows)
    row_after = row_of-update_where id p (claim now) rows (λ j. refl)

    of_row :
        (o : Option Job)
        → row_of id rows ≡ o
        → tried id js (summary (row_of id (claim_rows 10 now rows)))
          ≡ polled (summary (row_of id rows))
    of_row none e = rw (row_after, e) (tried_never id js none (tries ∙ rw e refl))
    of_row (some j) e =
        let picks =
          row_of-All (λ j. p j ≡ has_status pending j) id rows j (takes_pending rows d few) e in
        elim (Bool-cases (has_status pending j)) [
          | inl b ↦
              let picked : p j ≡ true = picks ∙ b in
              rw (row_after, e, picked, b)
                (tried_once id js (some (processing, j.retry_count)) (tries ∙ rw (e, picked) refl))
          | inr b ↦
              let left : p j ≡ false = picks ∙ b in
              rw (row_after, e, left, b)
                (tried_never id js (some (j.status, j.retry_count)) (tries ∙ rw (e, left) refl))
        ]
