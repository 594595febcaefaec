-- ===== src/Store/Configs.antt =====
-- internal/store/llm_config_store.go: the rows of `llm_configs`.
use prowiki.Base.{ℕ, Bool, true, false, ◌&&◌, ◌==◌, none, some, first_where}
use prowiki.Domain.Errors.{Error, ok, err}
use prowiki.Domain.Enums.{ModelTier, tier1, tier2}
use prowiki.Domain.Entities.{LlmConfig}
use prowiki.Db.Io.{Env, Io, Query, statement}
use prowiki.Store.Versions.{or_not_found}

abbrev is_tier : ModelTier → ModelTier → Bool
is_tier tier1 tier1 = true
is_tier tier2 tier2 = true
is_tier _ _ = false

unfoldable pub config_query : ℕ → ModelTier → Query LlmConfig
config_query project tier now t =
    elim (first_where (λ (c : LlmConfig). (c.project_id == project) && is_tier tier c.model_tier)
      t.configs.rows) [ none ↦ err Error.no_rows | some c ↦ ok (c, t) ]

-- `GetByTier`
unfoldable pub get_by_tier : Env → ℕ → ModelTier → Io LlmConfig
unfolding config_query statement
get_by_tier env project tier w = or_not_found (statement env (config_query project tier) w)
