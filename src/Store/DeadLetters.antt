-- ===== src/Store/DeadLetters.antt =====
-- internal/store/dlq_store.go.
use prowiki.Base.{String}
use prowiki.Domain.Errors.{ok}
use prowiki.Db.Schema.{insert, next_id}
use prowiki.Db.Io.{Env, Io, Query, statement}
use prowiki.Base.{ℕ}

unfoldable pub insert_item : ℕ → String → String → Query ℕ
insert_item job_id payload reason now t = ok (
  next_id t.dead_letters,
  record t {
    dead_letters =
        insert
          (λ id. record {
            id = id;
            job_id = job_id;
            payload = payload;
            reason = reason;
            created_at = now;
          })
          t.dead_letters;
  },
)

-- `DLQStore.Create`, which sets `item.ID`: the result is that id.
unfoldable pub create : Env → ℕ → String → String → Io ℕ
unfolding insert_item statement
create env job_id payload reason = statement env (insert_item job_id payload reason)
