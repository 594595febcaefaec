-- ===== src/Worker/Keeps.antt =====
-- internal/worker/daemon.go: what the calls of the queue keep, the daemon keeps, whatever fails.
use prowiki.Base.{ℕ, zero, suc, String, ◌≡◌, refl, List, [], ◌∷◌}
use prowiki.Domain.Errors.{Result, ok, err, panicked}
use prowiki.Domain.Entities.{Job}
use prowiki.Db.Io.{Env, World}
use prowiki.Db.Keeps.{Keeps, Keeps-pure, Keeps-bind}
use prowiki.Db.Ensures.{Ensures}
use prowiki.Txn.{TxFunc}
use prowiki.Queue
use prowiki.Queue.Rules.{QueueRules}
use prowiki.Db.Schema.{Tables}
use prowiki.Worker.{
  Dispatch, process_job_safe, process_jobs, process_batch, start, dropped, fail_dropped, completed,
  dispatched, recovered, cleanup, batch_limit,
}

-- A dispatcher whose handlers, and the transactions that they hand back, keep the property.
pub record IsTameFor (P : Tables → Type 0) (dispatch : Dispatch) : Type 0 where
  pub handling : (job : Job) → Keeps P (dispatch job)
  pub writing :
      (job : Job) (w w' : World) (fn : TxFunc)
      → dispatch job w ≡ (ok fn, w')
      → Ensures P fn (λ _. P)

abbrev HoldsAfter : {A : Type 0} → (Tables → Type 0) → Result A × World → Type 0
HoldsAfter P (r, w) = P w.tables

dropped_holds :
    {A : Type 0} (P : Tables → Type 0) (x : Result A × World)
    → HoldsAfter P x
    → HoldsAfter P (dropped x)
dropped_holds P (ok a, w) h = h
dropped_holds P (err e, w) h = h
dropped_holds P (panicked p, w) h = h

module _ (env : Env) (P : Tables → Type 0) (rules : QueueRules env P) (job : Job) where
  fail_dropped_holds :
      (payload : String) (w : World) → P w.tables → HoldsAfter P (fail_dropped env job payload w)
  fail_dropped_holds payload w h = dropped_holds P _ ((rules.failing job.id payload).at w h)

  completed_holds :
      (x : Result (Unit {0}) × World) → HoldsAfter P x → HoldsAfter P (completed env job x)
  completed_holds (ok u, w) h = h
  completed_holds (err e, w) h = fail_dropped_holds _ w h
  completed_holds (panicked p, w) h = h

  recovered_holds :
      (x : Result (Unit {0}) × World) → HoldsAfter P x → HoldsAfter P (recovered env job x)
  recovered_holds (ok u, w) h = h
  recovered_holds (err e, w) h = h
  recovered_holds (panicked p, w) h = fail_dropped_holds _ w h

  dispatched_holds :
      (x : Result TxFunc × World)
      → HoldsAfter P x
      → ((fn : TxFunc) (w : World) → x ≡ (ok fn, w) → Ensures P fn (λ _. P))
      → HoldsAfter P (dispatched env job x)
  dispatched_holds (ok fn, w) h k =
      completed_holds _ ((rules.completing job.id fn (k fn w refl)).at w h)
  dispatched_holds (err e, w) h k = fail_dropped_holds _ w h
  dispatched_holds (panicked p, w) h k = h

module _ (env : Env) (P : Tables → Type 0) (rules : (e : Env) → QueueRules e P)
    (dispatch : Dispatch) (tame : IsTameFor P dispatch) where
  process_job_safe-Keeps : (job : Job) → Keeps P (process_job_safe env dispatch job)
  unfolding process_job_safe
  process_job_safe-Keeps job = record {
    at = λ w h.
        let c = cleanup env (env.clock w.tick) in
        recovered_holds c P (rules c) job _ (
          dispatched_holds c P (rules c) job (dispatch job w) ((tame.handling job).at w h)
            (λ fn w' e. tame.writing job w w' fn e));
  }

  process_jobs-Keeps : (jobs : List Job) → Keeps P (process_jobs env dispatch jobs)
  unfolding process_jobs
  process_jobs-Keeps [] = Keeps-pure tt
  process_jobs-Keeps (job ∷ jobs) =
      Keeps-bind _ _ (process_job_safe-Keeps job) (λ _. process_jobs-Keeps jobs)

  process_batch-Keeps : Keeps P (process_batch env dispatch)
  unfolding process_batch
  process_batch-Keeps = record {
    at = λ w h.
        (Keeps-bind (Queue.claim_batch env batch_limit) (process_jobs env dispatch)
            ((rules env).claiming batch_limit) process_jobs-Keeps).at
          w h;
  }

  pub start-Keeps : (polls : ℕ) → Keeps P (start polls env dispatch)
  unfolding start
  start-Keeps zero = Keeps-pure tt
  start-Keeps (suc polls) = Keeps-bind _ _ process_batch-Keeps (λ _. start-Keeps polls)
