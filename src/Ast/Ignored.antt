-- ===== src/Ast/Ignored.antt =====
-- internal/ast/parser.go: lines that do not change the hash of a file.
use prowiki.Base.{
  has_prefix, contains, ◌≡◌, refl, sym, ap, ◌∙◌, Bool, true, false, not, ◌||◌, List, [], ◌∷◌, ◌++◌,
  select, All, if◌then◌else◌, Bytes, codes, ◌&&◌, String, arith,
}
use prowiki.Domain.Errors.{ok}
use prowiki.Domain.Language.{Language}
use prowiki.Ast.{
  parse, strip_by_language, strip_comments, strip_block_comments, strip_triple_quote_docstrings,
  strip_between, is_c_like, is_language, double_quotes, single_quotes, join, strip_line_comments,
  strip_blank_lines, is_comment, is_blank,
}
use prowiki.Ast.Lines.{
  IsLine, kept_blank, kept_comment, strip_blank_lines-join, strip_lines-join, select-middle,
  select-congr,
}

-- A text without the opening of a comment has no comment to strip.
strip_between-unmarked :
    (opening closing s : Bytes) → contains opening s ≡ false → strip_between opening closing 0 s ≡ s
unfolding strip_between contains
strip_between-unmarked opening closing [] h = refl
strip_between-unmarked opening closing (c ∷ s) h =
    ground (arith, h, strip_between-unmarked opening closing s)

-- The line is blank, or a comment of the language by itself.
abbrev pub is_ignored : Language → Bytes → Bool
is_ignored lang line =
    is_blank line
    || (if is_c_like lang
        then is_comment (codes "//") line
        else is_language "python" lang && is_comment (codes "#") line)

-- The text has no comment of several lines and no docstring.
abbrev pub is_unmarked : Language → Bytes → Bool
is_unmarked lang s =
    if is_c_like lang
    then not (contains (codes "/*") s)
    else if is_language "python" lang
    then not (contains double_quotes s) && not (contains single_quotes s)
    else true

-- The passes for an unmarked text, of the tests on its language.
strip_lines-unmarked :
    (prefix : Bytes) (lines : List Bytes)
    → has_prefix prefix [] ≡ false
    → All IsLine lines
    → strip_blank_lines (strip_line_comments (join lines) prefix)
      ≡ join (select (λ (x : Bytes). not (is_blank x || is_comment prefix x)) lines)
strip_lines-unmarked prefix lines e h =
    strip_lines-join prefix lines e h
    ∙ ap join (
        select-congr (λ (x : Bytes). kept_comment prefix x && kept_blank x)
          (λ (x : Bytes). not (is_blank x || is_comment prefix x)) lines (λ x. ground arith))

module _ (lines : List Bytes) (h : All IsLine lines) where
  abbrev text : Bytes
  text = join lines

  unmarked_cases :
      (c python : Bool)
      → (if c
          then not (contains (codes "/*") text)
          else if python
          then not (contains double_quotes text) && not (contains single_quotes text)
          else true)
        ≡ true
      → strip_blank_lines (
          if c
          then strip_line_comments (strip_block_comments text) (codes "//")
          else if python
          then strip_line_comments (strip_triple_quote_docstrings text) (codes "#")
          else text)
        ≡ join (
            select
              (λ (x : Bytes). not (
                is_blank x
                || (if c then is_comment (codes "//") x else python && is_comment (codes "#") x)))
              lines)
  unfolding strip_block_comments strip_triple_quote_docstrings has_prefix
  unmarked_cases true python e =
      ap (λ (s : Bytes). strip_blank_lines (strip_line_comments s (codes "//")))
        (strip_between-unmarked (codes "/*") (codes "*/") text (ground arith))
      ∙ strip_lines-unmarked (codes "//") lines refl h
  unmarked_cases false true e =
      let no_double : contains double_quotes text ≡ false = ground arith in
      let no_single : contains single_quotes text ≡ false = ground arith in
      ap
        (λ (s : Bytes).
          strip_blank_lines
            (strip_line_comments (strip_between single_quotes single_quotes 0 s) (codes "#")))
        (strip_between-unmarked double_quotes double_quotes text no_double)
      ∙ ap (λ (s : Bytes). strip_blank_lines (strip_line_comments s (codes "#")))
          (strip_between-unmarked single_quotes single_quotes text no_single)
      ∙ strip_lines-unmarked (codes "#") lines refl h
  unmarked_cases false false e =
      strip_blank_lines-join lines h
      ∙ ap join (
          select-congr kept_blank (λ (x : Bytes). not (is_blank x || false)) lines
            (λ x. ground arith))

  strip_by_language-unmarked :
      (lang : Language)
      → is_unmarked lang text ≡ true
      → strip_by_language lang text ≡ join (select (λ (x : Bytes). not (is_ignored lang x)) lines)
  unfolding strip_by_language strip_comments
  strip_by_language-unmarked lang e = unmarked_cases (is_c_like lang) (is_language "python" lang) e

-- A text that gets another line, which is blank or a comment of its language by itself, has the same
-- tree, and so the same hash, by any digest: both texts without the opening of a comment of several
-- lines (`/*`, and in Python three quotation marks or apostrophes).
pub parse-ignored :
    (digest : Bytes → String) (lang : Language) (before after : List Bytes) (line : Bytes)
    → All IsLine (before ++ line ∷ after)
    → All IsLine (before ++ after)
    → is_ignored lang line ≡ true
    → is_unmarked lang (join (before ++ line ∷ after)) ≡ true
    → is_unmarked lang (join (before ++ after)) ≡ true
    → parse digest lang (join (before ++ line ∷ after)) ≡ parse digest lang (join (before ++ after))
unfolding parse
parse-ignored digest lang before after line long short ignored unmarked unmarked' =
    ap (λ (s : Bytes). ok (record { hash = digest s }))
      (strip_by_language-unmarked (before ++ line ∷ after) long lang unmarked
        ∙ ap join (
            select-middle (λ (x : Bytes). not (is_ignored lang x)) before after line
              (ap not ignored))
        ∙ sym (strip_by_language-unmarked (before ++ after) short lang unmarked'))
