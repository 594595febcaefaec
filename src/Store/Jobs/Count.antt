-- ===== src/Store/Jobs/Count.antt =====
-- internal/store/job_store.go, `ClaimBatch`: how many jobs a batch takes.
use prowiki.Base.{
  ℕ, zero, suc, ◌+◌, min, ◌≡◌, refl, ap, ◌∙◌, inl, inr, Bool, true, false, List, [], ◌∷◌, map,
  length, take, select, All, All-imp, All-of_each, All-zip, All-take, Bool-cases, ◌==◌, ==_iff,
  ◌||◌, arith,
}
use prowiki.Domain.Enums.{pending}
use prowiki.Domain.Entities.{Job}
use prowiki.Store.Jobs.{
  has_status, outranks, insert_ordered, order_jobs, candidates, is_among, claim, scanned,
  claimed_rows,
}
use prowiki.Store.Jobs.Order.{
  HasDistinctIds, Differs, select-HasDistinctIds, All-insert_ordered, All-order_jobs,
  is_among_congr,
}
use prowiki.Store.Jobs.Claim.{All-chosen}

length-map : {A B : Type 0} (f : A → B) (xs : List A) → length (map f xs) ≡ length xs
length-map f [] = refl
length-map f (x ∷ xs) = ap suc (length-map f xs)

length-take : {A : Type 0} (n : ℕ) (xs : List A) → length (take n xs) ≡ min n (length xs)
length-take zero xs = omega arith
length-take (suc n) [] = omega arith
length-take (suc n) (x ∷ xs) = omega (arith, length-take n xs)

length-insert_ordered : (j : Job) (js : List Job) → length (insert_ordered j js) ≡ suc (length js)
unfolding insert_ordered
length-insert_ordered j [] = refl
length-insert_ordered j (k ∷ ks) = ground (arith, length-insert_ordered j ks)

pub length-order_jobs : (js : List Job) → length (order_jobs js) ≡ length js
unfolding order_jobs
length-order_jobs [] = refl
length-order_jobs (j ∷ js) =
    omega (arith, length-insert_ordered j (order_jobs js), length-order_jobs js)

insert_ordered-HasDistinctIds :
    (j : Job) (js : List Job)
    → All (Differs j) js
    → HasDistinctIds js
    → HasDistinctIds (insert_ordered j js)
unfolding insert_ordered
insert_ordered-HasDistinctIds j [] n d = (tt, tt)
insert_ordered-HasDistinctIds j (k ∷ ks) n d = elim (Bool-cases (outranks j k)) [
  | inl e ↦ rw e (n, d)
  | inr e ↦ rw e (
    All-insert_ordered (Differs k) j ks (ground arith) d.0,
    insert_ordered-HasDistinctIds j ks n.1 d.1,
  )
]

order_jobs-HasDistinctIds : (js : List Job) → HasDistinctIds js → HasDistinctIds (order_jobs js)
unfolding order_jobs
order_jobs-HasDistinctIds [] d = tt
order_jobs-HasDistinctIds (j ∷ js) d =
    insert_ordered-HasDistinctIds j (order_jobs js) (All-order_jobs (Differs j) js d.0)
      (order_jobs-HasDistinctIds js d.1)

take-HasDistinctIds : (n : ℕ) (js : List Job) → HasDistinctIds js → HasDistinctIds (take n js)
take-HasDistinctIds zero js d = tt
take-HasDistinctIds (suc n) [] d = tt
take-HasDistinctIds (suc n) (j ∷ js) d =
    (All-take (Differs j) n js d.0, take-HasDistinctIds n js d.1)

abbrev count_where : (Job → Bool) → List Job → ℕ
count_where p js = length (select p js)

count_or :
    (p q : Job → Bool) (js : List Job)
    → All (λ j. p j ≡ true → q j ≡ false) js
    → count_where (λ j. p j || q j) js ≡ count_where p js + count_where q js
count_or p q [] h = omega arith
count_or p q (j ∷ js) h = ground (arith, h.0, count_or p q js h.1)

count_none : (p : Job → Bool) (js : List Job) → All (λ j. p j ≡ false) js → count_where p js ≡ 0
count_none p [] h = refl
count_none p (j ∷ js) h = ground (arith, count_none p js h.1)

-- Each row is the only one with its id.
count_one :
    (js : List Job)
    → HasDistinctIds js
    → All (λ c. count_where (λ (j : Job). j.id == c.id) js ≡ 1) js
count_one [] d = tt
count_one (k ∷ ks) d = (
  ground (arith, count_none (λ (j : Job). j.id == k.id) ks d.0),
  All-imp
      (λ (c : Job) (h : Differs k c × (count_where (λ (j : Job). j.id == c.id) ks ≡ 1)).
        ground arith)
      ks (All-zip (Differs k) _ ks d.0 (count_one ks d.1)),
)

not_among : (cs : List Job) (c : Job) → All (Differs c) cs → is_among cs c ≡ false
unfolding is_among
not_among [] c h = refl
not_among (d ∷ ds) c h = ground (arith, h.0, not_among ds c h.1)

count_among :
    (cs rows : List Job)
    → HasDistinctIds cs
    → All (λ c. count_where (λ (j : Job). j.id == c.id) rows ≡ 1) cs
    → count_where (is_among cs) rows ≡ length cs
unfolding is_among
count_among [] rows d h = count_none (λ j. false) rows (All-of_each (λ j. refl) rows)
count_among (c ∷ cs) rows d h =
    count_or (λ (j : Job). j.id == c.id) (is_among cs) rows (All-of_each apart rows)
    ∙ omega (arith, h.0, count_among cs rows d.1 h.1)
  where
    apart : (j : Job) → (j.id == c.id) ≡ true → is_among cs j ≡ false
    apart j e = is_among_congr cs j c ((==_iff j.id c.id).0 e) ∙ not_among cs c d.0

-- A batch takes as many jobs as it may, where no two rows have one id: `limit` of them, or all that
-- are pending if those are fewer.
pub length-claimed_rows :
    (limit now : ℕ) (rows : List Job)
    → HasDistinctIds rows
    → length (claimed_rows limit now rows) ≡ min limit (length (select (has_status pending) rows))
unfolding claimed_rows candidates
length-claimed_rows limit now rows d =
    length-map scanned (map (claim now) found)
    ∙ length-map (claim now) found
    ∙ count_among (candidates limit rows) rows
        (take-HasDistinctIds limit (order_jobs pool)
          (order_jobs-HasDistinctIds pool (select-HasDistinctIds (has_status pending) rows d)))
        (All-chosen limit now rows _ (All-imp (λ c h _. h) rows (count_one rows d)))
    ∙ length-take limit (order_jobs pool)
    ∙ ap (min limit) (length-order_jobs pool)
  where
    pool : List Job
    pool = select (has_status pending) rows

    found : List Job
    found = select (is_among (candidates limit rows)) rows
