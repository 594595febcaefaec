-- ===== src/Logger.antt =====
-- internal/logger/logger.go: the level of the log. The lines are written by log/slog.
use prowiki.Base.{map, Bytes, bytes_eq, codes, trim_space, ◌||◌, if◌then◌else◌}
use prowiki.Domain.Language.{to_lower}

pub data Level : Type 0 where
  debug info warn error : Level

-- `levelFromEnv`, of the value of PROWIKI_LOG_LEVEL, which is empty if it is not set.
unfoldable pub level_from_env : Bytes → Level
unfolding trim_space to_lower bytes_eq
level_from_env value =
    let v = map to_lower (trim_space value) in
    if bytes_eq v (codes "debug")
    then debug
    else if bytes_eq v (codes "warn") || bytes_eq v (codes "warning")
    then warn
    else if bytes_eq v (codes "error")
    then error
    else if bytes_eq v (codes "info")
    then info
    else info
