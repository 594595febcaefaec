-- ===== src/Store/Prompts.antt =====
-- internal/store/prompt_store.go: the prompts of the stages. Where a stage has several active prompts,
-- `LIMIT 1` without an order takes the first row.
use prowiki.Base.{ℕ, Bool, String, str_eq, ◌&&◌, none, some, first_where}
use prowiki.Domain.Errors.{Error, ok, err}
use prowiki.Domain.Enums.{Stage}
use prowiki.Domain.Entities.{PromptTemplate}
use prowiki.Db.Schema.{insert, next_id}
use prowiki.Db.Io.{Env, Io, Query, statement}
use prowiki.Store.Versions.{or_not_found}

abbrev pub is_active_for : Stage → PromptTemplate → Bool
is_active_for stage p = str_eq p.stage stage && p.is_active

unfoldable pub active_query : Stage → Query PromptTemplate
active_query stage now t = elim (first_where (is_active_for stage) t.prompts.rows) [
  | none ↦ err Error.no_rows
  | some p ↦ ok (p, t)
]

-- `PromptStore.Active`
unfoldable pub active : Env → Stage → Io PromptTemplate
unfolding active_query statement
active env stage w = or_not_found (statement env (active_query stage) w)

abbrev pub prompt_row : ℕ → Stage → String → ℕ → Bool → ℕ → PromptTemplate
prompt_row now stage template version is_active id = record {
  id = id;
  stage = stage;
  template = template;
  version = version;
  is_active = is_active;
  created_at = now;
  updated_at = now;
}

unfoldable pub insert_prompt : Stage → String → ℕ → Bool → Query ℕ
insert_prompt stage template version is_active now t = ok (
  next_id t.prompts,
  record t { prompts = insert (prompt_row now stage template version is_active) t.prompts },
)

-- `PromptStore.Create`, which sets `prompt.ID`: the result is that id.
unfoldable pub create : Env → Stage → String → ℕ → Bool → Io ℕ
unfolding insert_prompt statement
create env stage template version is_active =
    statement env (insert_prompt stage template version is_active)
