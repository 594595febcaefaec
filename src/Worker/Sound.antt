-- ===== src/Worker/Sound.antt =====
-- internal/worker/daemon.go: the daemon keeps the invariant of the queue, whatever fails.
use prowiki.Base.{ℕ}
use prowiki.Db.Io.{Env, World}
use prowiki.Queue.Rules.{QueueRules}
use prowiki.Queue.Invariant.{
  IsSound-IsFramed, claim_batch-IsSound_kept, complete-IsSound, fail-IsSound,
}
use prowiki.Store.Jobs.Sound.{IsSound, enqueue_many-IsSound}
use prowiki.Worker.{Dispatch, start}
use prowiki.Worker.Keeps.{IsTameFor, start-Keeps}

-- A dispatcher whose handlers, and the transactions that they hand back, keep the invariant.
abbrev pub IsTame : Dispatch → Type 0
IsTame = IsTameFor IsSound

pub IsSound-rules : (env : Env) → QueueRules env IsSound
IsSound-rules env = record {
  framed = IsSound-IsFramed;
  claiming = claim_batch-IsSound_kept env;
  completing = complete-IsSound env;
  failing = fail-IsSound env;
  enqueuing = enqueue_many-IsSound env;
}

module _ (env : Env) (dispatch : Dispatch) (tame : IsTame dispatch) where
  -- However many polls the daemon makes and whichever calls of the database fail, with a dispatcher
  -- that keeps the invariant itself: afterwards no two jobs have one id, each id was issued, no job was
  -- retried more than three times, and each job that is `failed` has a dead letter, if that was so at
  -- the start.
  pub start-IsSound :
      (polls : ℕ) (w : World) → IsSound w.tables → IsSound (start polls env dispatch w).1.tables
  start-IsSound polls w h = (start-Keeps env IsSound IsSound-rules dispatch tame polls).at w h
