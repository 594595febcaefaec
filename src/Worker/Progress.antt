-- ===== src/Worker/Progress.antt =====
-- internal/worker/daemon.go: no job that was handed to the daemon is left `processing`.
use native.Mathlib.Nat.{lt_of_lt_of_le}
use prowiki.Base.{
  ℕ, ◌+◌, ◌<◌, ◌≤◌, ◌∙◌, ap, refl, false, arith, leb, String, ◌≡◌, ◌≢◌, some, none, Option, List,
  inl, inr, Bool-cases,
}
use prowiki.Domain.Errors.{Result, ok, err, panicked}
use prowiki.Domain.Enums.{JobStatus, processing}
use prowiki.Domain.Entities.{Job}
use prowiki.Db.Io.{Env, World, reliable}
use prowiki.Txn.{TxFunc}
use prowiki.Queue
use prowiki.Txn.Atomic.{AllOrNothing}
use prowiki.Queue.Complete.{complete_gone}
use prowiki.Queue.{max_retries}
use prowiki.Queue.InTime.{fail_calm}
use prowiki.Queue.Life.{life, failed_life, fail_life-one}
use prowiki.Worker.{
  Dispatch, process_job_safe, dropped, fail_dropped, completed, dispatched, recovered, cleanup,
}

-- The job's row is gone, or it is not `processing`.
abbrev pub IsReleased : Option (JobStatus × ℕ) → Type 0
IsReleased none = Unit
IsReleased (some (s, n)) = s ≢ processing

failed_life-IsReleased : (l : Option (JobStatus × ℕ)) → IsReleased (failed_life l)
unfolding failed_life
failed_life-IsReleased none = tt
failed_life-IsReleased (some (s, n)) = elim (Bool-cases (leb max_retries n)) [
  | inl e ↦ rw e (λ h. cc)
  | inr e ↦ rw e (λ h. cc)
]

module _ (env : Env) (job : Job) (last : ℕ) (calm : (n : ℕ) → n < last → env.fault n ≡ none) where
  -- If the last call came before `last`, the job is released.
  abbrev Released : Result (Unit {0}) × World → Type 0
  Released (r, w) = w.tick ≤ last → IsReleased (life job.id w.tables)

  failed-IsReleased :
      (payload : String) (w : World)
      → (Queue.fail env job.id payload w).1.tick ≤ last
      → IsReleased (life job.id (Queue.fail env job.id payload w).1.tables)
  failed-IsReleased payload w early =
      let soon : (n : ℕ) → n < (Queue.fail env job.id payload w).1.tick → env.fault n ≡ none =
        λ n h. calm n (lt_of_lt_of_le h early) in
      let same = fail_calm env job.id payload w soon in
      let lived =
        ap (λ (x : Result (Unit {0}) × World). life job.id x.1.tables) same
        ∙ fail_life-one env.clock env.arrange job.id payload w in
      rw lived (failed_life-IsReleased (life job.id w.tables))

  fail_dropped-Released : (payload : String) (w : World) → Released (fail_dropped env job payload w)
  fail_dropped-Released payload w =
      through (Queue.fail env job.id payload w) (failed-IsReleased payload w)
    where
      through :
          (x : Result (Unit {0}) × World)
          → (x.1.tick ≤ last → IsReleased (life job.id x.1.tables))
          → Released (dropped x)
      through (ok u, w') h = h
      through (err e, w') h = h
      through (panicked p, w') h = h

  -- Of a call before the deferred function: a value leaves the job released, and there is no error.
  abbrev IsFine : Result (Unit {0}) × World → Type 0
  IsFine (ok u, w) = w.tick ≤ last → IsReleased (life job.id w.tables)
  IsFine (err e, w) = ⊥
  IsFine (panicked p, w) = Unit

  fail_dropped-IsFine : (payload : String) (w : World) → IsFine (fail_dropped env job payload w)
  fail_dropped-IsFine payload w =
      through (Queue.fail env job.id payload w) (failed-IsReleased payload w)
    where
      through :
          (x : Result (Unit {0}) × World)
          → (x.1.tick ≤ last → IsReleased (life job.id x.1.tables))
          → IsFine (dropped x)
      through (ok u, w') h = h
      through (err e, w') h = h
      through (panicked p, w') h = tt

  completed-IsFine :
      (w : World) (x : Result (Unit {0}) × World)
      → AllOrNothing w x (λ _ w'. life job.id w'.tables ≡ none)
      → IsFine (completed env job x)
  completed-IsFine w (ok u, w') h = λ _. rw h tt
  completed-IsFine w (err e, w') h = fail_dropped-IsFine _ w'
  completed-IsFine w (panicked p, w') h = tt

  dispatched-IsFine : (x : Result TxFunc × World) → IsFine (dispatched env job x)
  dispatched-IsFine (ok fn, w) =
      completed-IsFine w (Queue.complete env job.id (some fn) w)
        (complete_gone env job.id (some fn) w)
  dispatched-IsFine (err e, w) = fail_dropped-IsFine _ w
  dispatched-IsFine (panicked p, w) = tt

  recovered-Released : (x : Result (Unit {0}) × World) → IsFine x → Released (recovered env job x)
  recovered-Released (ok u, w) h = h
  recovered-Released (err e, w) h = absurd h
  recovered-Released (panicked p, w) h = fail_dropped-Released _ w

-- Where no call of the database fails by itself and the processing of a job, from before its dispatcher
-- is called to the last call of the database, takes less than five seconds, the job is not left
-- `processing`, whatever its dispatcher does (an error, a panic, a transaction that fails or panics): it
-- has no row any more, or its row has another status.
pub process_job_safe-IsReleased :
    (clock : ℕ → ℕ) (arrange : List Job → List Job) (job : Job) (dispatch : Dispatch) (w : World)
    → ((n : ℕ)
        → n < (process_job_safe (reliable clock arrange) dispatch job w).1.tick
        → clock n < clock w.tick + 5)
    → IsReleased (life job.id (process_job_safe (reliable clock arrange) dispatch job w).1.tables)
unfolding process_job_safe
process_job_safe-IsReleased clock arrange job dispatch w fast =
    let c = cleanup (reliable clock arrange) (clock w.tick) in
    let last = (process_job_safe (reliable clock arrange) dispatch job w).1.tick in
    let calm : (n : ℕ) → n < last → c.fault n ≡ none = λ n h.
      let soon : leb (clock w.tick + 5) (clock n) ≡ false = ground (arith, fast n h) in
      rw soon refl in
    recovered-Released c job last calm (dispatched c job (dispatch job w))
      (dispatched-IsFine c job last calm (dispatch job w)) (omega arith)
