-- ===== src/Store/Jobs/Order.antt =====
-- internal/store/job_store.go: the order of the subquery of `ClaimBatch`, and rows told by their id.
use prowiki.Base.{
  ℕ, zero, suc, ◌≡◌, refl, sym, subst, inl, inr, Bool, true, false, List, [], ◌∷◌, take, select,
  All, All-of_each, All-imp, All-select, All-zip, drop, All-drop, Bool-cases, ==_refl, ◌==◌, arith,
}
use prowiki.Domain.Entities.{Job}
use prowiki.Store.Jobs.{outranks, insert_ordered, order_jobs, is_among}

-- `b` does not come before `a`.
abbrev pub NotAfter : Job → Job → Type 0
NotAfter a b = outranks b a ≡ false

abbrev pub IsOrdered : List Job → Type 0
IsOrdered [] = Unit
IsOrdered (j ∷ js) = All (NotAfter j) js × IsOrdered js

outranks_asym : (a b : Job) → outranks a b ≡ true → outranks b a ≡ false
outranks_asym a b h = ground arith

NotAfter-trans : (a b c : Job) → outranks a b ≡ true → NotAfter b c → NotAfter a c
NotAfter-trans a b c h k = ground arith

module _ {ℓ} (P : Job → Type ℓ) where
  pub All-insert_ordered : (j : Job) (js : List Job) → P j → All P js → All P (insert_ordered j js)
  unfolding insert_ordered
  All-insert_ordered j [] h hs = (h, tt)
  All-insert_ordered j (k ∷ ks) h hs = elim (Bool-cases (outranks j k)) [
    | inl e ↦ rw e (h, hs)
    | inr e ↦ rw e (hs.0, All-insert_ordered j ks h hs.1)
  ]

  All-of_insert_ordered : (j : Job) (js : List Job) → All P (insert_ordered j js) → All P (j ∷ js)
  unfolding insert_ordered
  All-of_insert_ordered j [] h = h
  All-of_insert_ordered j (k ∷ ks) h = elim (Bool-cases (outranks j k)) [
    | inl e ↦ rw e at h
    | inr e ↦
        let h' : All P (k ∷ insert_ordered j ks) = rw e at h in
        let t : All P (j ∷ ks) = All-of_insert_ordered j ks h'.1 in (t.0, (h'.0, t.1))
  ]

  pub All-order_jobs : (js : List Job) → All P js → All P (order_jobs js)
  unfolding order_jobs
  All-order_jobs [] h = tt
  All-order_jobs (j ∷ js) h = All-insert_ordered j (order_jobs js) h.0 (All-order_jobs js h.1)

  pub All-of_order_jobs : (js : List Job) → All P (order_jobs js) → All P js
  unfolding order_jobs
  All-of_order_jobs [] h = tt
  All-of_order_jobs (j ∷ js) h =
      let t = All-of_insert_ordered j (order_jobs js) h in (t.0, All-of_order_jobs js t.1)

insert_ordered-IsOrdered :
    (j : Job) (js : List Job) → IsOrdered js → IsOrdered (insert_ordered j js)
unfolding insert_ordered
insert_ordered-IsOrdered j [] h = (tt, tt)
insert_ordered-IsOrdered j (k ∷ ks) h = elim (Bool-cases (outranks j k)) [
  | inl e ↦ rw e ((outranks_asym j k e, All-imp (λ c. NotAfter-trans j k c e) ks h.0), h)
  | inr e ↦ rw e (All-insert_ordered (NotAfter k) j ks e h.0, insert_ordered-IsOrdered j ks h.1)
]

pub order_jobs-IsOrdered : (js : List Job) → IsOrdered (order_jobs js)
unfolding order_jobs
order_jobs-IsOrdered [] = tt
order_jobs-IsOrdered (j ∷ js) = insert_ordered-IsOrdered j (order_jobs js) (order_jobs-IsOrdered js)

-- Nothing that is left of an ordered list comes before what is taken.
pub IsOrdered-take :
    (n : ℕ) (js : List Job)
    → IsOrdered js
    → All (λ j. All (λ c. NotAfter c j) (take n js)) (drop n js)
IsOrdered-take zero js h = All-of_each (λ j. tt) js
IsOrdered-take (suc n) [] h = tt
IsOrdered-take (suc n) (x ∷ xs) h =
    All-zip (NotAfter x) (λ j. All (λ c. NotAfter c j) (take n xs)) (drop n xs)
      (All-drop (NotAfter x) n xs h.0) (IsOrdered-take n xs h.1)

-- No two rows have one id: `id` is the primary key.
abbrev pub HasDistinctIds : List Job → Type 0
HasDistinctIds [] = Unit
HasDistinctIds (j ∷ js) = All (λ (k : Job). (k.id == j.id) ≡ false) js × HasDistinctIds js

-- The rows with the id of `c` are `c` itself.
abbrev pub Identifies : Job → Job → Type 0
Identifies c r = (r.id == c.id) ≡ true → r ≡ c

pub HasDistinctIds-Identifies :
    (rows : List Job) → HasDistinctIds rows → All (λ c. All (Identifies c) rows) rows
HasDistinctIds-Identifies [] h = tt
HasDistinctIds-Identifies (j ∷ js) h = (
  ((λ _. refl), All-imp (λ k ne e. ground arith) js h.0),
  All-zip (λ c. Identifies c j) (λ c. All (Identifies c) js) js
      (All-imp (λ k ne e. ground arith) js h.0) (HasDistinctIds-Identifies js h.1),
)

pub is_among_self : (cs : List Job) → All (λ c. is_among cs c ≡ true) cs
unfolding is_among
is_among_self [] = tt
is_among_self (c ∷ cs) =
    (ground (arith, ==_refl c.id), All-imp (λ (d : Job) e. ground arith) cs (is_among_self cs))

-- What holds of the candidates holds of a row with an id among theirs.
pub of_is_among {ℓ} :
    (P : Job → Type ℓ) (r : Job) (cs : List Job)
    → All (λ c. Identifies c r) cs
    → All P cs
    → is_among cs r ≡ true
    → P r
unfolding is_among
of_is_among P r [] hi hp h = absurd (cc)
of_is_among P r (c ∷ cs) hi hp h = elim (Bool-cases (r.id == c.id)) [
  | inl e ↦ subst P (sym (hi.0 e)) hp.0
  | inr e ↦ of_is_among P r cs hi.1 hp.1 (rw e at h)
]

-- `is_among` looks at ids alone.
pub is_among_congr : (cs : List Job) (a b : Job) → a.id ≡ b.id → is_among cs a ≡ is_among cs b
unfolding is_among
is_among_congr [] a b e = refl
is_among_congr (c ∷ cs) a b e = ground (arith, is_among_congr cs a b e)

abbrev pub Differs : Job → Job → Type 0
Differs j k = (k.id == j.id) ≡ false

pub select-HasDistinctIds :
    (p : Job → Bool) (js : List Job) → HasDistinctIds js → HasDistinctIds (select p js)
select-HasDistinctIds p [] d = tt
select-HasDistinctIds p (j ∷ js) d = elim (Bool-cases (p j)) [
  | inl e ↦
      rw e
        (All-select (Differs j) p js (All-imp (λ k h _. h) js d.0), select-HasDistinctIds p js d.1)
  | inr e ↦ rw e (select-HasDistinctIds p js d.1)
]
