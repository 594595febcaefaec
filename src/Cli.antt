-- ===== src/Cli.antt =====
-- internal/cli/cli.go: the application of main.go, with the part of Go's package flag that its one flag
-- needs. What is printed of the flags by `PrintDefaults` is a constant text.
pub mod Outcomes
use prowiki.Base.{
  ℕ, Bool, true, false, ◌&&◌, ◌||◌, List, [], ◌∷◌, ◌++◌, ◌==◌, if◌then◌else◌, Option, none, some,
  Bytes, bytes_eq, codes,
}

pub data Failure : Type 0 where
  bad_syntax : Bytes → Failure
  undefined : Bytes → Failure
  invalid_boolean : Bytes → Failure
  help_requested : Failure
  missing_command : Failure
  unknown_command : Bytes → Failure

-- What was written to `Out` and to `Err`.
pub data Line : Type 0 where
  version_line : Line
  usage : Line
  complaint : Failure → Line

pub record Ended : Type 0 where
  pub lines : List Line
  pub failure : Option Failure

abbrev among : List Bytes → Bytes → Bool
among [] s = false
among (t ∷ ts) s = bytes_eq t s || among ts s

-- `strconv.ParseBool`
unfoldable pub parse_bool : Bytes → Option Bool
unfolding bytes_eq
parse_bool s =
    if among (codes "1" ∷ codes "t" ∷ codes "T" ∷ codes "true" ∷ codes "TRUE" ∷ codes "True" ∷ []) s
    then some true
    else if among
        (codes "0" ∷ codes "f" ∷ codes "F" ∷ codes "false" ∷ codes "FALSE" ∷ codes "False" ∷ []) s
    then some false
    else none

-- A flag's name and its value behind the first `=`, which is not looked for at the first letter.
abbrev before_equals : ℕ → Bytes × Option Bytes → Bytes × Option Bytes
before_equals c (name, value) = (c ∷ name, value)

unfoldable pub split_value : Bytes → Bytes × Option Bytes
split_value [] = ([], none)
split_value (c ∷ s) =
    let rest = split_value s in if c == b'=' then ([], some s) else before_equals c rest

abbrev name_and_value : Bytes → Bytes × Option Bytes
name_and_value [] = ([], none)
name_and_value (c ∷ s) = before_equals c (split_value s)

-- What one argument is for the parser.
pub data Argument : Type 0 where
  -- the first argument that is no flag
  plain : Argument
  -- `--`
  terminator : Argument
  flag : Bytes → Option Bytes → Argument
  malformed : Argument

abbrev named : Bytes → Argument
named [] = malformed
named (c ∷ s) =
    if c == b'-' || c == b'='
    then malformed
    else let (name, value) = name_and_value (c ∷ s) in flag name value

unfoldable pub classify : Bytes → Argument
unfolding split_value
classify [] = plain
classify (c ∷ []) = plain
classify (c ∷ d ∷ s) =
    if c == b'-'
    then if d == b'-' then elim s [ [] ↦ terminator | x ∷ r ↦ named (x ∷ r) ] else named (d ∷ s)
    else plain

-- The value of the flag `version` and the arguments that are left, or a failure.
pub data Parsed : Type 0 where
  parsed : Bool → List Bytes → Parsed
  failed : Failure → Parsed

abbrev set_version : Option Bytes → Option Bool
set_version none = some true
set_version (some v) = parse_bool v

abbrev set_or_fail : Bytes → Option Bool → (Bool → Parsed) → Parsed
set_or_fail a none rest = failed (invalid_boolean a)
set_or_fail a (some b) rest = rest b

abbrev unknown_flag : Bytes → Parsed
unknown_flag name =
    if bytes_eq name (codes "help") || bytes_eq name (codes "h")
    then failed help_requested
    else failed (undefined name)

-- `FlagSet.Parse`
unfoldable pub parse_flags : Bool → List Bytes → Parsed
unfolding classify parse_bool bytes_eq
parse_flags version [] = parsed version []
parse_flags version (a ∷ args) = elim (classify a) [
  | plain ↦ parsed version (a ∷ args)
  | terminator ↦ parsed version args
  | malformed ↦ failed (bad_syntax a)
  | flag name value ↦ elim (bytes_eq name (codes "version")) [
    | true ↦ set_or_fail a (set_version value) (λ b. parse_flags b args)
    | false ↦ unknown_flag name
  ]
]

-- The failures that the parser writes itself, with the usage.
abbrev written : Failure → List Line
written help_requested = usage ∷ []
written f = complaint f ∷ usage ∷ []

abbrev commanded : List Bytes → Ended
commanded [] = record { lines = usage ∷ []; failure = some missing_command }
commanded (command ∷ rest) =
    if bytes_eq command (codes "help")
    then record { lines = usage ∷ []; failure = none }
    else record { lines = []; failure = some (unknown_command command) }

abbrev after_flags : Parsed → Ended
after_flags (failed f) = record { lines = written f; failure = some f }
after_flags (parsed true rest) = record { lines = version_line ∷ []; failure = none }
after_flags (parsed false rest) = commanded rest

-- `App.Run`
unfoldable pub run : List Bytes → Ended
unfolding parse_flags bytes_eq
run args = after_flags (parse_flags false args)
