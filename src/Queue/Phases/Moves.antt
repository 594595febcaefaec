-- ===== src/Queue/Phases/Moves.antt =====
-- internal/store/job_store.go: the moves of the jobs under each form of statement on `job_queue`.
use prowiki.Base.{
  ℕ, suc, ◌≡◌, refl, subst, Bool, true, false, Option, some, none, List, [], ◌∷◌, ◌++◌, All, ltb,
  ◌==◌, arith, if◌then◌else◌, Bool-cases, Option-cases, inl, inr, update_where, delete_where,
}
use prowiki.Domain.Entities.{Job, DeadLetterItem}
use prowiki.Db.Schema.{Tables, insert}
use prowiki.Store.Jobs.{new_row}
use prowiki.Store.Jobs.Sound.{IsSound, IsSoundJob}
use prowiki.Queue.Life.{row_of, map_option, row_of-delete, row_of-delete_ne}
use prowiki.Queue.Phases.{live, born, removed, Reach, here, next, phase, phase_of_row}

abbrev with_rows : Tables → List Job → Tables
with_rows t rows = record t { jobs = record { rows = rows; seq = t.jobs.seq } }

row_of-update_where :
    (id : ℕ) (p : Job → Bool) (f : Job → Job) (rows : List Job)
    → ((j : Job) → (f j).id ≡ j.id)
    → row_of id (update_where p f rows) ≡ map_option (λ j. if p j then f j else j) (row_of id rows)
row_of-update_where id p f [] same = refl
row_of-update_where id p f (j ∷ rows) same =
    ground (arith, same j, row_of-update_where id p f rows same)

-- What holds of every row holds of the row with an id.
at_row :
    (Q : Job → Type 0) (id : ℕ) (rows : List Job) (j : Job)
    → All Q rows
    → row_of id rows ≡ some j
    → Q j
at_row Q id [] j h e = absurd (cc)
at_row Q id (k ∷ rows) j h e = elim (Bool-cases (k.id == id)) [
  | inl same ↦
      let found : some k ≡ some j = rw same at e in let this : k ≡ j = cc in subst Q this h.0
  | inr other ↦ at_row Q id rows j h.1 (rw other at e)
]

-- The rows that an UPDATE finds make the moves that it makes of them.
pub update_moves :
    (p : Job → Bool) (f : Job → Job) (t : Tables)
    → ((j : Job) → (f j).id ≡ j.id)
    → All
        (λ j. p j ≡ true → Reach (live j.status j.retry_count) (phase_of_row (some (f j))))
        t.jobs.rows
    → (id : ℕ) → Reach (phase id t) (phase id (with_rows t (update_where p f t.jobs.rows)))
update_moves p f t same h id = elim (Bool-cases (ltb t.jobs.seq id)) [
  | inl new ↦ rw new here
  | inr old ↦
      rw (old, row_of-update_where id p f t.jobs.rows same)
        elim (Option-cases (row_of id t.jobs.rows)) [
          | inl e ↦ rw e here
          | inr (j, e) ↦ elim (Bool-cases (p j)) [
            | inl hit ↦ rw (e, hit) (at_row _ id t.jobs.rows j h e hit)
            | inr miss ↦ rw (e, miss) here
          ]
        ]
]

pub delete_moves :
    (x : ℕ) (t : Tables) (id : ℕ)
    → Reach
        (phase id t)
        (phase id (with_rows t (delete_where (λ (j : Job). j.id == x) t.jobs.rows)))
delete_moves x t id = elim (Bool-cases (ltb t.jobs.seq id)) [
  | inl new ↦ rw new here
  | inr old ↦ elim (Bool-cases (id == x)) [
    | inl same ↦
        let at : id ≡ x = ground arith in
        rw (old, at, row_of-delete x t.jobs.rows)
          elim (Option-cases (row_of x t.jobs.rows)) [
            | inl e ↦ rw e here
            | inr (j, e) ↦ rw e (next here (removed j.status j.retry_count))
          ]
    | inr other ↦ rw (old, row_of-delete_ne x id t.jobs.rows other) here
  ]
]

or_last : Option Job → Option Job → Option Job
or_last none o = o
or_last (some j) o = some j

row_of-append :
    (id : ℕ) (rows : List Job) (x : Job)
    → row_of id (rows ++ x ∷ []) ≡ or_last (row_of id rows) (row_of id (x ∷ []))
unfolding or_last
row_of-append id [] x = refl
row_of-append id (j ∷ rows) x = ground (arith, row_of-append id rows x)

not_issued :
    (id seq : ℕ) (letters : List DeadLetterItem) (rows : List Job)
    → All (IsSoundJob seq letters) rows
    → ltb seq id ≡ true
    → row_of id rows ≡ none
not_issued id seq letters [] h new = refl
not_issued id seq letters (j ∷ rows) h new =
    let le = h.0.issued in ground (arith, not_issued id seq letters rows h.1 new)

pub insert_moves :
    (now : ℕ) (x : Job) (t : Tables)
    → IsSound t
    → (id : ℕ) → Reach (phase id t) (phase id (record t { jobs = insert (new_row now x) t.jobs }))
unfolding or_last
insert_moves now x t s id = elim (Bool-cases (ltb t.jobs.seq id)) [
  | inl new ↦ elim (Bool-cases (ltb (suc t.jobs.seq) id)) [
    | inl later ↦ rw (new, later) here
    | inr first ↦
        let this : (suc t.jobs.seq == id) ≡ true = ground arith in
        rw
          (
            new,
            first,
            row_of-append id t.jobs.rows (new_row now x (suc t.jobs.seq)),
            not_issued id t.jobs.seq t.dead_letters.rows t.jobs.rows s.each new,
            this,
          )
          (next here born)
  ]
  | inr old ↦
      let other : (suc t.jobs.seq == id) ≡ false = ground arith in
      let still : ltb (suc t.jobs.seq) id ≡ false = ground arith in
      rw (old, still, row_of-append id t.jobs.rows (new_row now x (suc t.jobs.seq)))
        elim (Option-cases (row_of id t.jobs.rows)) [
          | inl e ↦ rw (e, other) here
          | inr (j, e) ↦ rw e here
        ]
]
