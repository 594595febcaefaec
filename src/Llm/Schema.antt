-- ===== src/Llm/Schema.antt =====
-- internal/llm/schema.go: reading the JSON of an answer, with what stands around it cut away. A text is
-- the list of its code points, and encoding/json is a parameter.
pub mod Repair
use Prim.Native.String.{◌++◌}
use prowiki.Base.{
  ℕ, zero, suc, ◌+◌, Bool, String, List, [], ◌∷◌, length, take, drop, ltb, ◌==◌, if◌then◌else◌,
  Option, none, some, Bytes, trim_space,
}
use prowiki.Domain.Errors.{Error, Result, ok, err}

-- `strings.Index` and `strings.LastIndex` of a character that passes a test.
unfoldable pub index_where : (ℕ → Bool) → Bytes → Option ℕ
index_where p [] = none
index_where p (c ∷ s) =
    let further = index_where p s in
    if p c then some 0 else elim further [ none ↦ none | some i ↦ some (suc i) ]

unfoldable pub last_index_where : (ℕ → Bool) → Bytes → Option ℕ
last_index_where p [] = none
last_index_where p (c ∷ s) = elim (last_index_where p s) [
  | none ↦ if p c then some 0 else none
  | some i ↦ some (suc i)
]

-- `startIdx`, of the first brace and the first bracket.
abbrev pub first_of : Option ℕ → Option ℕ → Option ℕ
first_of none none = none
first_of none (some b) = some b
first_of (some a) none = some a
first_of (some a) (some b) = some (if ltb a b then a else b)

-- `endIdx`, of the last brace and the last bracket.
abbrev pub last_of : Option ℕ → Option ℕ → Option ℕ
last_of none none = none
last_of none (some b) = some b
last_of (some a) none = some a
last_of (some a) (some b) = some (if ltb b a then a else b)

abbrev pub from_index : Option ℕ → Bytes → Bytes
from_index none s = s
from_index (some i) s = drop i s

abbrev pub to_index : Option ℕ → Bytes → Bytes
to_index none s = s
to_index (some i) s = if ltb i (length s) then take (suc i) s else s

abbrev pub is_char : ℕ → ℕ → Bool
is_char c d = d == c

unfoldable pub strip_before : Bytes → Bytes
unfolding index_where
strip_before s =
    from_index (first_of (index_where (is_char b'{') s) (index_where (is_char b'[') s)) s

unfoldable pub strip_after : Bytes → Bytes
unfolding last_index_where
strip_after s =
    to_index (last_of (last_index_where (is_char b'}') s) (last_index_where (is_char b']') s)) s

-- `repairMarkdownFences`
unfoldable pub repair_markdown_fences : Bytes → Bytes
unfolding strip_before strip_after trim_space
repair_markdown_fences raw = trim_space (strip_after (strip_before (trim_space raw)))

-- `json.Unmarshal` into a value: the value after it, and its error.
abbrev pub Unmarshal : Type 0 → Type 0
Unmarshal A = A → Bytes → A × Option String

-- `ParseStrict`, of the zero value of the type. The second attempt writes into the value that the first
-- left.
unfoldable pub parse_strict : {A : Type 0} → Unmarshal A → A → Bytes → Result A
unfolding repair_markdown_fences
parse_strict unmarshal zero_value raw =
    let (out, failure) = unmarshal zero_value raw in
    let (out', failure') = unmarshal out (repair_markdown_fences raw) in
    elim failure [
      | none ↦ ok out
      | some direct ↦ elim failure' [
        | none ↦ ok out'
        | some repaired ↦ err (
            Error.message (
              "failed to parse structured output: direct_err=" ++ direct ++ ", repaired_err="
              ++ repaired))
      ]
    ]
