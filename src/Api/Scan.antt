-- ===== src/Api/Scan.antt =====
-- internal/api/handlers.go: the number that `fmt.Sscanf(idStr, "%d", &id)` reads for an int64. Go's
-- standard library is written out.
pub mod Printed
use prowiki.Base.{
  ℕ, ◌+◌, ◌-◌, ◌*◌, Bool, true, false, ◌&&◌, leb, ◌==◌, List, [], ◌∷◌, if◌then◌else◌, Option, none,
  some, Bytes, is_space,
}

-- `negative n` is -n.
pub data Number : Type 0 where
  positive negative : ℕ → Number

abbrev pub is_digit : ℕ → Bool
is_digit c = leb 48 c && leb c 57

-- `SkipSpace`, which refuses a newline.
unfoldable pub skip_space : Bytes → Option Bytes
skip_space [] = some []
skip_space (c ∷ s) =
    let rest = skip_space s in if c == 10 then none else if is_space c then rest else some (c ∷ s)

-- The digits at the start, on top of those that were read.
unfoldable pub digits_value : ℕ → Bytes → ℕ
digits_value n [] = n
digits_value n (c ∷ s) =
    let rest = digits_value (n * 10 + (c - 48)) s in if is_digit c then rest else n

abbrev pub limit : ℕ
limit = 9223372036854775808

abbrev pub in_range : Number → Option Number
in_range (positive n) = if leb limit n then none else some (positive n)
in_range (negative n) = if leb (limit + 1) n then none else some (negative n)

-- At least one digit, and no overflow; what stands behind the digits is not looked at.
unfoldable pub scan_digits : (ℕ → Number) → Bytes → Option Number
unfolding digits_value
scan_digits sign [] = none
scan_digits sign (c ∷ s) = if is_digit c then in_range (sign (digits_value 0 (c ∷ s))) else none

abbrev pub scan_sign : Option Bytes → Option Number
scan_sign none = none
scan_sign (some []) = none
scan_sign (some (c ∷ s)) =
    if c == 43
    then scan_digits positive s
    else if c == 45
    then scan_digits negative s
    else scan_digits positive (c ∷ s)

unfoldable pub scan_number : Bytes → Option Number
unfolding skip_space scan_digits
scan_number s = scan_sign (skip_space s)
