-- ===== src/Ast.antt =====
-- internal/ast/parser.go: the text of a file without comments and blank lines, and its hash. A text is
-- the list of its code points, and sha256 with the encoding in hexadecimal is a parameter.
pub mod Lines
pub mod Ignored
use prowiki.Base.{
  has_prefix, trim_space, ℕ, zero, suc, ◌+◌, ◌-◌, Bool, true, false, not, ◌&&◌, ◌||◌, String, List,
  [], ◌∷◌, ◌++◌, map, length, drop, select, leb, ◌==◌, if◌then◌else◌, Option, none, some, Bytes,
  codes, bytes_eq,
}
use prowiki.Domain.Errors.{Result, ok}
use prowiki.Domain.Language.{Language, to_lower}
use prowiki.Ingest.{Tree}

abbrev pub newline : ℕ
newline = 10

abbrev pub onto_first : ℕ → List Bytes → List Bytes
onto_first c [] = (c ∷ []) ∷ []
onto_first c (line ∷ lines) = (c ∷ line) ∷ lines

-- `strings.Split(s, "\n")`
unfoldable pub split : Bytes → List Bytes
split [] = [] ∷ []
split (c ∷ s) = let rest = split s in if c == newline then [] ∷ rest else onto_first c rest

-- `strings.Join(lines, "\n")`
unfoldable pub join : List Bytes → Bytes
join [] = []
join (line ∷ []) = line
join (line ∷ next ∷ lines) = line ++ newline ∷ join (next ∷ lines)

-- How far the first end of a comment reaches.
unfoldable pub end_of : Bytes → Bytes → Option ℕ
unfolding has_prefix
end_of closing [] = none
end_of closing (c ∷ s) =
    let further = end_of closing s in
    if has_prefix closing (c ∷ s)
    then some (length closing)
    else elim further [ none ↦ none | some n ↦ some (suc n) ]

-- The length of a match of `open[\s\S]*?close` at the start of a text.
abbrev pub comment_length : Bytes → Bytes → Bytes → Option ℕ
comment_length opening closing s =
    if has_prefix opening s
    then elim (end_of closing (drop (length opening) s)) [
      | none ↦ none
      | some n ↦ some (length opening + n)
    ]
    else none

-- `ReplaceAllString(s, "")` for such a pattern, with the number of characters that are still part of the
-- match before.
unfoldable pub strip_between : Bytes → Bytes → ℕ → Bytes → Bytes
unfolding end_of has_prefix
strip_between opening closing skip [] = []
strip_between opening closing (suc skip) (c ∷ s) = strip_between opening closing skip s
strip_between opening closing zero (c ∷ s) = elim (comment_length opening closing (c ∷ s)) [
  | none ↦ c ∷ strip_between opening closing zero s
  | some n ↦ strip_between opening closing (n - 1) s
]

unfoldable pub strip_block_comments : Bytes → Bytes
unfolding strip_between
strip_block_comments s = strip_between (codes "/*") (codes "*/") 0 s

-- Three quotation marks, and three apostrophes.
abbrev pub double_quotes : Bytes
double_quotes = 34 ∷ 34 ∷ 34 ∷ []

abbrev pub single_quotes : Bytes
single_quotes = 39 ∷ 39 ∷ 39 ∷ []

unfoldable pub strip_triple_quote_docstrings : Bytes → Bytes
unfolding strip_between
strip_triple_quote_docstrings s =
    strip_between single_quotes single_quotes 0 (strip_between double_quotes double_quotes 0 s)

abbrev pub is_comment : Bytes → Bytes → Bool
is_comment prefix line = has_prefix prefix (trim_space line)

abbrev pub is_blank : Bytes → Bool
is_blank line = bytes_eq (trim_space line) []

unfoldable pub strip_line_comments : Bytes → Bytes → Bytes
unfolding split join has_prefix trim_space
strip_line_comments s prefix =
    join (select (λ (line : Bytes). not (is_comment prefix line)) (split s))

unfoldable pub strip_blank_lines : Bytes → Bytes
unfolding split join trim_space
strip_blank_lines s = join (select (λ (line : Bytes). not (is_blank line)) (split s))

-- `strings.ToLower(lang)` is one of the cases.
abbrev pub is_language : String → Language → Bool
is_language name lang = bytes_eq (map to_lower (codes lang)) (codes name)

abbrev pub is_c_like : Language → Bool
is_c_like lang =
    is_language "go" lang || (is_language "javascript" lang || is_language "typescript" lang)

-- The passes for the comments of a language.
unfoldable pub strip_comments : Language → Bytes → Bytes
unfolding strip_block_comments strip_line_comments strip_triple_quote_docstrings
strip_comments lang content =
    if is_c_like lang
    then strip_line_comments (strip_block_comments content) (codes "//")
    else if is_language "python" lang
    then strip_line_comments (strip_triple_quote_docstrings content) (codes "#")
    else content

unfoldable pub strip_by_language : Language → Bytes → Bytes
unfolding strip_comments strip_blank_lines
strip_by_language lang content = strip_blank_lines (strip_comments lang content)

-- `Parse`
unfoldable pub parse : (Bytes → String) → Language → Bytes → Result Tree
unfolding strip_by_language
parse digest lang content = ok (record { hash = digest (strip_by_language lang content) })

-- `StructuralHash`
abbrev pub structural_hash : Tree → Result String
structural_hash tree = ok tree.hash
