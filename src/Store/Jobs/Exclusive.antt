-- ===== src/Store/Jobs/Exclusive.antt =====
-- internal/store/job_store.go, `ClaimBatch`: what a batch changes, and that batches do not overlap.
use prowiki.Base.{
  ℕ, ◌≡◌, refl, ◌∙◌, Bool, true, false, List, [], ◌∷◌, map, select, update_where, All, All-of_each,
  All-select, All-update_where, All-map, Bool-cases, ◌==◌, ==_iff, inl, inr, arith, if◌then◌else◌,
}
use prowiki.Domain.Enums.{JobStatus, pending, processing}
use prowiki.Domain.Entities.{Job}
use prowiki.Store.Jobs.{
  has_status, is_status, candidates, is_among, claim, scanned, claim_rows, claimed_rows,
}
use prowiki.Store.Jobs.Order.{HasDistinctIds, is_among_congr}
use prowiki.Store.Jobs.Claim.{All-chosen, All-found}

pub eq_of_is_status : (s t : JobStatus) → is_status s t ≡ true → t ≡ s
eq_of_is_status s t h = ground arith

-- A row before and after a batch: it is as it was, or it was pending and was claimed.
pub data Claimed (now : ℕ) : Job → Job → Type 0 where
  kept : (j : Job) → Claimed now j j
  taken :
      (j : Job)
      → j.status ≡ pending
      → Claimed now j (record {
        id = j.id;
        project_id = j.project_id;
        target_id = j.target_id;
        target_type = j.target_type;
        stage = j.stage;
        status = processing;
        priority = j.priority;
        retry_count = j.retry_count;
        payload = j.payload;
        created_at = j.created_at;
        updated_at = now;
      })

abbrev pub AllClaimed : ℕ → List Job → List Job → Type 0
AllClaimed now [] [] = Unit
AllClaimed now [] (k ∷ ks) = ⊥
AllClaimed now (j ∷ js) [] = ⊥
AllClaimed now (j ∷ js) (k ∷ ks) = Claimed now j k × AllClaimed now js ks

Claimed-row :
    (now : ℕ) (b : Bool) (j : Job)
    → (b ≡ true → has_status pending j ≡ true)
    → Claimed now j (if b then claim now j else j)
Claimed-row now true j h = taken j (eq_of_is_status pending j.status (h refl))
Claimed-row now false j h = kept j

AllClaimed-update :
    (now : ℕ) (cs rows : List Job)
    → All (λ r. is_among cs r ≡ true → has_status pending r ≡ true) rows
    → AllClaimed now rows (update_where (is_among cs) (claim now) rows)
AllClaimed-update now cs [] h = tt
AllClaimed-update now cs (r ∷ rows) h =
    (Claimed-row now (is_among cs r) r h.0, AllClaimed-update now cs rows h.1)

-- A batch changes the table row by row, where no two rows have one id: each row stays as it was, or
-- it was pending and becomes `processing`, with the time of the claim and no other change.
pub claim_rows_step :
    (limit now : ℕ) (rows : List Job)
    → HasDistinctIds rows
    → AllClaimed now rows (claim_rows limit now rows)
unfolding claim_rows
claim_rows_step limit now rows d = AllClaimed-update now (candidates limit rows) rows (
    All-found limit now rows (λ r. has_status pending r ≡ true) d
      (All-chosen limit now rows (λ r. has_status pending r ≡ true) (All-of_each (λ r e. e) rows)))

is_among_via :
    (cs ds : List Job) (j : Job) (b : Bool)
    → All (λ d. is_among cs d ≡ b) ds
    → is_among ds j ≡ true
    → is_among cs j ≡ b
unfolding is_among
is_among_via cs [] j b h e = absurd (cc)
is_among_via cs (d ∷ ds) j b h e = elim (Bool-cases (j.id == d.id)) [
  | inl same ↦ is_among_congr cs j d ((==_iff j.id d.id).0 same) ∙ h.0
  | inr other ↦ is_among_via cs ds j b h.1 (rw other at e)
]

module _ (limit now limit' now' : ℕ) (rows : List Job) where
  abbrev first : List Job
  first = candidates limit rows

  abbrev after : List Job
  after = claim_rows limit now rows

  All-returned {ℓ} :
      (Q : Job → Type ℓ) (l n : ℕ) (js : List Job)
      → All (λ r. is_among (candidates l js) r ≡ true → Q (scanned (claim n r))) js
      → All Q (claimed_rows l n js)
  unfolding claimed_rows
  All-returned Q l n js h =
      All-map Q scanned (map (claim n) (select (is_among (candidates l js)) js)) (
        All-map (λ r. Q (scanned r)) (claim n) (select (is_among (candidates l js)) js)
          (All-select (λ r. Q (scanned (claim n r))) (is_among (candidates l js)) js h))

  claimed_among : All (λ d. is_among first d ≡ true) (claimed_rows limit now rows)
  claimed_among =
      All-returned _ limit now rows
        (All-of_each (λ r e. is_among_congr first (scanned (claim now r)) r refl ∙ e) rows)

  not_chosen_twice : All (λ c. is_among first c ≡ false) (candidates limit' after)
  unfolding claim_rows
  not_chosen_twice =
      All-chosen limit' now' after (λ c. is_among first c ≡ false)
        (All-update_where _ (is_among first) (claim now) rows
          (All-of_each (λ r. still_pending r (is_among first r) refl) rows))
    where
      still_pending :
          (r : Job) (b : Bool)
          → is_among first r ≡ b
          → has_status pending (if b then claim now r else r) ≡ true
          → is_among first (if b then claim now r else r) ≡ false
      still_pending r true e h = absurd (cc)
      still_pending r false e h = e

  not_both :
      (r : Job)
      → is_among (candidates limit' after) r ≡ true
      → (b : Bool) → is_among (claimed_rows limit now rows) (scanned (claim now' r)) ≡ b
      → b ≡ false
  not_both r e false h = refl
  not_both r e true h =
      let among : is_among first r ≡ true =
        is_among_congr first r (scanned (claim now' r)) refl
        ∙ is_among_via first (claimed_rows limit now rows) (scanned (claim now' r)) true
            claimed_among h in
      let apart : is_among first r ≡ false =
        is_among_via first (candidates limit' after) r false not_chosen_twice e in
      cc (among, apart)

  -- Two batches in a row, of any limits and at any times, have no job in common.
  pub claim_disjoint :
      All
        (λ j. is_among (claimed_rows limit now rows) j ≡ false)
        (claimed_rows limit' now' (claim_rows limit now rows))
  claim_disjoint = All-returned _ limit' now' after (All-of_each (λ r e. not_both r e _ refl) after)
