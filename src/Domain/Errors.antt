-- ===== src/Domain/Errors.antt =====
-- internal/domain/errors.go and the outcome of a Go call: a value, an error value, or a panic.
use Prim.Native.String.{◌++◌}
use prowiki.Base.{String, Bool, true, false}

-- The sentinels of `errors.go`, the sentinel of `database/sql`, an error that `fmt.Errorf` wraps
-- (`%w`) or formats, a refused constraint, and an error of the driver or of a service.
pub data Error : Type 0 where
  not_found conflict context_overflow auth_rotation poison_pill : Error
  no_rows : Error
  wrapped : String → Error → Error
  message : String → Error
  constraint : String → Error
  foreign : String → Error

abbrev pub is_not_found : Error → Bool
is_not_found Error.not_found = true
is_not_found _ = false

abbrev pub is_no_rows : Error → Bool
is_no_rows Error.no_rows = true
is_no_rows _ = false

abbrev pub is_context_overflow : Error → Bool
is_context_overflow Error.context_overflow = true
is_context_overflow _ = false

abbrev pub is_auth_rotation : Error → Bool
is_auth_rotation Error.auth_rotation = true
is_auth_rotation _ = false

pub data Result {ℓ} (A : Type ℓ) : Type ℓ where
  ok : A → Result A
  err : Error → Result A
  panicked : String → Result A

-- `err.Error()`
unfoldable pub error_text : Error → String
error_text Error.not_found = "not found"
error_text Error.conflict = "conflict"
error_text Error.context_overflow = "context overflow"
error_text Error.auth_rotation = "auth rotation required"
error_text Error.poison_pill = "poison pill"
error_text Error.no_rows = "sql: no rows in result set"
error_text (Error.wrapped s e) = s ++ ": " ++ error_text e
error_text (Error.message s) = s
error_text (Error.constraint s) = s
error_text (Error.foreign s) = s
