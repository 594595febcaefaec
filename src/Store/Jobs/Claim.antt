-- ===== src/Store/Jobs/Claim.antt =====
-- internal/store/job_store.go, `ClaimBatch`: which rows a batch takes.
use prowiki.Base.{
  ℕ, ◌≡◌, ◌≤◌, ◌<◌, ◌==◌, Bool-cases, arith, refl, ◌⊎◌, inl, inr, Bool, true, false, List, map,
  take, drop, select, if◌then◌else◌, All, All-imp, All-take, All-take-drop, All-select,
  All-of_select, All-update_where, All-map, All-swap,
}
use prowiki.Domain.Enums.{pending}
use prowiki.Domain.Entities.{Job}
use prowiki.Store.Jobs.{
  has_status, outranks, order_jobs, candidates, is_among, claim, scanned, claim_rows, claimed_rows,
}
use prowiki.Store.Jobs.Order.{
  NotAfter, HasDistinctIds, Identifies, All-order_jobs, All-of_order_jobs, order_jobs-IsOrdered,
  IsOrdered-take, HasDistinctIds-Identifies, is_among_self, of_is_among,
}

module _ (limit now : ℕ) (rows : List Job) where
  abbrev chosen : List Job
  chosen = candidates limit rows

  pub All-chosen {ℓ} :
      (P : Job → Type ℓ)
      → All (λ j. has_status pending j ≡ true → P j) rows
      → All P (candidates limit rows)
  unfolding candidates
  All-chosen P h = All-take P limit (order_jobs (select (has_status pending) rows)) (
      All-order_jobs P (select (has_status pending) rows)
        (All-select P (has_status pending) rows h))

  chosen_identified :
      HasDistinctIds rows → All (λ r. All (λ c. Identifies c r) (candidates limit rows)) rows
  chosen_identified d = All-swap Identifies (candidates limit rows) rows (
      All-chosen (λ c. All (Identifies c) rows)
        (All-imp (λ c i _. i) rows (HasDistinctIds-Identifies rows d)))

  -- What holds of the chosen rows holds of those that the UPDATE finds by their ids.
  pub All-found {ℓ} :
      (P : Job → Type ℓ)
      → HasDistinctIds rows
      → All P (candidates limit rows)
      → All (λ r. is_among (candidates limit rows) r ≡ true → P r) rows
  All-found P d h =
      All-imp (λ r i. of_is_among P r (candidates limit rows) i h) rows (chosen_identified d)

  pub All-claimed {ℓ} :
      (P Q : Job → Type ℓ)
      → ((r : Job) → P r → Q (scanned (claim now r)))
      → HasDistinctIds rows
      → All P (candidates limit rows)
      → All Q (claimed_rows limit now rows)
  unfolding claimed_rows
  All-claimed P Q f d h =
      All-map Q scanned (map (claim now) (select (is_among (candidates limit rows)) rows)) (
        All-map (λ r. Q (scanned r)) (claim now) (select (is_among (candidates limit rows)) rows)
          (All-select (λ r. Q (scanned (claim now r))) (is_among (candidates limit rows)) rows
            (All-imp (λ r g e. f r (g e)) rows (All-found P d h))))

  chosen_or_after :
      All
        (λ j.
          (is_among (candidates limit rows) j ≡ true)
          ⊎ All (λ c. NotAfter c j) (candidates limit rows))
        (select (has_status pending) rows)
  unfolding candidates
  chosen_or_after = All-of_order_jobs _ pool (
      All-take-drop _ limit (order_jobs pool)
        (All-imp (λ j e. inl e) (take limit (order_jobs pool)) (is_among_self _))
        (All-imp (λ j h. inr h) (drop limit (order_jobs pool))
          (IsOrdered-take limit (order_jobs pool) (order_jobs-IsOrdered pool))))
    where
      pool : List Job
      pool = select (has_status pending) rows

  -- One row of the table after the UPDATE, if it is pending there.
  left_behind :
      HasDistinctIds rows
      → (j : Job)
      → (has_status pending j ≡ true
          → (is_among (candidates limit rows) j ≡ true)
            ⊎ All (λ c. NotAfter c j) (candidates limit rows))
      → (b : Bool) → is_among (candidates limit rows) j ≡ b
      → has_status pending (if b then claim now j else j) ≡ true
      → All (λ c. outranks (if b then claim now j else j) c ≡ false) (claimed_rows limit now rows)
  left_behind d j cases true e h = absurd (cc)
  left_behind d j cases false e h = elim (cases h) [
    | inl among ↦ absurd (cc)
    | inr after ↦ All-claimed (λ c. NotAfter c j) (λ c. outranks j c ≡ false) (λ r n. n) d after
  ]

  none_outranks :
      HasDistinctIds rows
      → All
          (λ j. All (λ c. outranks j c ≡ false) (claimed_rows limit now rows))
          (select (has_status pending) (claim_rows limit now rows))
  unfolding claim_rows
  none_outranks d = All-select _ (has_status pending) (claim_rows limit now rows) (
      All-update_where _ (is_among chosen) (claim now) rows (
        All-imp (λ j cases. left_behind d j cases (is_among chosen j) refl) rows
          (All-of_select _ (has_status pending) rows chosen_or_after)))

  -- After a batch of at most `limit` jobs was claimed, where no two rows have one id: each job that is
  -- still pending has a lower priority than each claimed one, or the same and no smaller id.
  pub claim_order :
      HasDistinctIds rows
      → All
          (λ j.
            All
              (λ c. (j.priority < c.priority) ⊎ ((j.priority ≡ c.priority) × (c.id ≤ j.id)))
              (claimed_rows limit now rows))
          (select (has_status pending) (claim_rows limit now rows))
  claim_order d =
      All-imp (λ j h. All-imp (λ c e. behind j c e) (claimed_rows limit now rows) h)
        (select (has_status pending) (claim_rows limit now rows)) (none_outranks d)
    where
      behind :
          (j c : Job)
          → outranks j c ≡ false
          → (j.priority < c.priority) ⊎ ((j.priority ≡ c.priority) × (c.id ≤ j.id))
      behind j c e = elim (Bool-cases (j.priority == c.priority)) [
        | inl same ↦ inr (ground (arith, same), ground (arith, same, e))
        | inr other ↦ inl (ground (arith, other, e))
      ]
