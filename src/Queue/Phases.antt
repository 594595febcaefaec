-- ===== src/Queue/Phases.antt =====
-- internal/queue/sqlite_queue.go with internal/store/job_store.go: a job as a state machine, which
-- forgets where the job stands in the table and what it carries.
pub mod Moves
pub mod Kept
use prowiki.Base.{ℕ, ◌+◌, ◌≤◌, ◌<◌, ◌≡◌, Option, some, none, ltb, if◌then◌else◌}
use prowiki.Domain.Enums.{JobStatus, pending, processing, completed, failed}
use prowiki.Domain.Entities.{Job}
use prowiki.Db.Schema.{Tables, Table}
use prowiki.Queue.Life.{row_of}

-- A job that was not enqueued yet, one that has a row with a status and a number of retries, and one
-- that was completed.
pub data Phase : Type 0 where
  unborn : Phase
  live : JobStatus → ℕ → Phase
  gone : Phase

-- What may happen to a job.
pub data Move : Phase → Phase → Type 0 where
  born : Move unborn (live pending 0)
  claimed : (n : ℕ) → Move (live pending n) (live processing n)
  retried : (s : JobStatus) (n m : ℕ) → n < 3 → m ≡ n + 1 → Move (live s n) (live pending m)
  buried : (s : JobStatus) (n : ℕ) → 3 ≤ n → Move (live s n) (live failed n)
  removed : (s : JobStatus) (n : ℕ) → Move (live s n) gone

-- Any number of moves.
pub data Reach (p : Phase) : Phase → Type 0 where
  here : Reach p p
  next : {q r : Phase} → Reach p q → Move q r → Reach p r

pub Reach-trans : {p q r : Phase} → Reach p q → Reach q r → Reach p r
Reach-trans h here = h
Reach-trans h (next k m) = next (Reach-trans h k) m

abbrev pub phase_of_row : Option Job → Phase
phase_of_row none = gone
phase_of_row (some j) = live j.status j.retry_count

-- The phase that the tables give the job with an id.
abbrev pub phase_in : ℕ → Table Job → Phase
phase_in id jobs = if ltb jobs.seq id then unborn else phase_of_row (row_of id jobs.rows)

abbrev pub phase : ℕ → Tables → Phase
phase id t = phase_in id t.jobs

-- From one state of the tables to another, each job made moves.
abbrev pub Moved : Tables → Tables → Type 0
Moved t t' = (id : ℕ) → Reach (phase id t) (phase id t')
