-- ===== src/Tests/Queue.antt =====
-- The theorems on the queue and the daemon, on a small database.
use prowiki.Base.{
  ℕ, ◌+◌, ◌<◌, ◌≤◌, ◌⊎◌, ◌∷◌, Bool, true, String, min, ◌≡◌, refl, false, [], ◌++◌, ◌==◌, All,
  select, length, some, none, arith,
}
use prowiki.Domain.Errors.{Error, ok, err, panicked}
use prowiki.Domain.Enums.{pending, processing, stage_level1_overview}
use prowiki.Db.Io.{pure, later}
use prowiki.Txn.{immediate}
use prowiki.Txn.Atomic.{AllOrNothing, immediate_atomic}
use prowiki.Store.Jobs.{has_status, claim_rows, claimed_rows, is_among}
use prowiki.Store.Jobs.Order.{HasDistinctIds}
use prowiki.Store.Jobs.Claim.{claim_order}
use prowiki.Store.Jobs.Count.{length-claimed_rows}
use prowiki.Store.Jobs.Exclusive.{AllClaimed, claim_rows_step, claim_disjoint}
use prowiki.Store.Jobs.Sound.{IsSound}
use prowiki.Queue.{complete, fail, run_handler}
use prowiki.Queue.Complete.{complete_atomic, without_job}
use prowiki.Queue.Life.{life, failed_life, fail_result, letters_for, fail_lem}
use prowiki.Worker.{Dispatch, start, process_job_safe}
use prowiki.Worker.Sound.{IsTame, start-IsSound}
use prowiki.Worker.Progress.{IsReleased, process_job_safe-IsReleased}
use prowiki.Worker.Failing.{IsBrisk}
use prowiki.Db.Io.{World}
use prowiki.Tests.Samples.{job, three_jobs, small_tables, small_world, calm, shaky}

three_jobs-HasDistinctIds : HasDistinctIds three_jobs
three_jobs-HasDistinctIds = ((refl, (refl, tt)), ((refl, tt), (tt, tt)))

claim_order_example :
    All
      (λ j.
        All
          (λ c. (j.priority < c.priority) ⊎ ((j.priority ≡ c.priority) × (c.id ≤ j.id)))
          (claimed_rows 1 7 three_jobs))
      (select (has_status pending) (claim_rows 1 7 three_jobs))
claim_order_example = claim_order 1 7 three_jobs three_jobs-HasDistinctIds

length-claimed_rows_example :
    length (claimed_rows 1 7 three_jobs) ≡ min 1 (length (select (has_status pending) three_jobs))
length-claimed_rows_example = length-claimed_rows 1 7 three_jobs three_jobs-HasDistinctIds

claim_rows_step_example : AllClaimed 7 three_jobs (claim_rows 1 7 three_jobs)
claim_rows_step_example = claim_rows_step 1 7 three_jobs three_jobs-HasDistinctIds

claim_disjoint_example :
    All
      (λ j. is_among (claimed_rows 1 7 three_jobs) j ≡ false)
      (claimed_rows 2 8 (claim_rows 1 7 three_jobs))
claim_disjoint_example = claim_disjoint 1 7 2 8 three_jobs

immediate_atomic_example : AllOrNothing small_world (immediate shaky (pure tt) small_world) (λ a w'.
    ((pure tt (later small_world)).0 ≡ ok a) × (w'.tables ≡ (pure tt (later small_world)).1.tables))
immediate_atomic_example = immediate_atomic shaky (pure tt) small_world

complete_atomic_example :
    AllOrNothing small_world (complete calm 3 (some (pure tt)) small_world) (λ _ w'.
      let handled = run_handler (some (pure tt)) (later small_world) in
      (handled.0 ≡ ok tt)
      × (w'.tables ≡ without_job 3 handled.1.tables)
      × (life 3 w'.tables ≡ none)
      × ((other : ℕ) → (other == 3) ≡ false → life other w'.tables ≡ life other handled.1.tables))
complete_atomic_example = complete_atomic calm 3 (some (pure tt)) small_world

fail_lem_example :
    ((fail calm 3 "boom" small_world).0 ≡ fail_result (life 3 small_tables))
    × (life 3 (fail calm 3 "boom" small_world).1.tables ≡ failed_life (life 3 small_tables))
    × ((fail calm 3 "boom" small_world).1.tables.dead_letters.rows
        ≡ [] ++ letters_for 3 "boom" 2 1 (life 3 small_tables))
    × ((other : ℕ)
        → (other == 3) ≡ false
        → life other (fail calm 3 "boom" small_world).1.tables ≡ life other small_tables)
fail_lem_example = fail_lem (λ n. n) (λ jobs. jobs) 3 "boom" small_world

-- A dispatcher that panics.
abbrev panics : Dispatch
panics j w = (panicked "nil map", w)

process_job_safe-IsReleased_example :
    IsReleased
      (life 3 (process_job_safe calm panics (job 3 "PARSE" processing 1 3) small_world).1.tables)
unfolding process_job_safe fail
process_job_safe-IsReleased_example =
    process_job_safe-IsReleased (λ n. n) (λ jobs. jobs) (job 3 "PARSE" processing 1 3) panics
      small_world (λ n h. h)

-- A dispatcher that takes five seconds, and then refuses.
abbrev dawdles : Dispatch
dawdles j w = (err (Error.message "no"), record w { tick = w.tick + 5 })

-- Its job is left processing, since the call of Fail comes too late.
left_processing :
    life 3 (process_job_safe calm dawdles (job 3 "PARSE" processing 1 3) small_world).1.tables
    ≡ some (processing, 3)
unfolding process_job_safe fail life
left_processing = refl

abbrev refuses : Dispatch
refuses j w = (err (Error.message "no"), w)

-- Two jobs that wait.
abbrev pub waiting_world : World
waiting_world = record {
  tables = record small_tables {
    jobs = record {
      rows = job 1 stage_level1_overview pending 1 0 ∷ job 2 stage_level1_overview pending 5 0 ∷ [];
      seq = 3;
    };
  };
  tick = 0;
}

pub life_of_first : life 1 waiting_world.tables ≡ some (pending, 0)
unfolding life
life_of_first = refl

abbrev any_stage : String → Bool
any_stage s = true

pub seconds-IsBrisk : IsBrisk (λ n. n)
seconds-IsBrisk n k h = omega (arith, h)

refuses-IsTame : IsTame refuses
refuses-IsTame = record {
  handling = λ j. record { at = λ w h. h };
  writing = λ j w w' fn e. absurd (cc);
}

pub small_tables-IsSound : IsSound small_tables
small_tables-IsSound = record {
  distinct = three_jobs-HasDistinctIds;
  each = (
    record { issued = omega arith; bounded = omega arith; buried = λ e. absurd (cc) },
    (
      record { issued = omega arith; bounded = omega arith; buried = λ e. absurd (cc) },
      (record { issued = omega arith; bounded = omega arith; buried = λ e. absurd (cc) }, tt),
    ),
  );
}

start-IsSound_example : IsSound (start 4 shaky refuses small_world).1.tables
start-IsSound_example =
    start-IsSound shaky refuses refuses-IsTame 4 small_world small_tables-IsSound
