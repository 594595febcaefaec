-- ===== src/Config.antt =====
-- internal/config/config.go: the configuration. viper and validator are not part of the repository: the
-- struct that viper fills, and whether validator takes a text for a URL, are parameters; the tags of
-- the fields are written out.
use prowiki.Base.{ℕ, Bool, ◌&&◌, ◌||◌, not, leb, ◌==◌, String, str_eq, if◌then◌else◌}
use prowiki.Domain.Errors.{Error, Result, ok, err, panicked}

pub record Config : Type 0 where
  pub db_path : String
  pub api_port : ℕ
  pub llm_endpoint : String
  pub log_level : String

-- `SetDefault`
abbrev pub defaults : Config
defaults = record {
  db_path = ".prowiki.db";
  api_port = 8080;
  llm_endpoint = "http://localhost:4000";
  log_level = "info";
}

-- `required`
abbrev pub is_given : String → Bool
is_given s = not (str_eq s "")

-- `required,min=1,max=65535`
abbrev pub is_port : ℕ → Bool
is_port n = not (n == 0) && (leb 1 n && leb n 65535)

-- `required,oneof=debug info warn error`
abbrev pub is_level : String → Bool
is_level s =
    is_given s && (str_eq s "debug" || (str_eq s "info" || (str_eq s "warn" || str_eq s "error")))

abbrev pub is_valid : (String → Bool) → Config → Bool
is_valid is_url c =
    is_given c.db_path
    && (is_port c.api_port
        && ((is_given c.llm_endpoint && is_url c.llm_endpoint) && is_level c.log_level))

abbrev pub validated : (String → Bool) → Result Config → Result Config
validated is_url (ok c) =
    if is_valid is_url c
    then ok c
    else err (Error.wrapped "config validation failed" (Error.foreign "validation"))
validated is_url (err e) = err (Error.wrapped "failed to unmarshal config" e)
validated is_url (panicked p) = panicked p

-- `Load`, of what viper unmarshals.
unfoldable pub load : (String → Bool) → Result Config → Result Config
load is_url filled = validated is_url filled
