-- ===== src/Ast/Lines.antt =====
-- internal/ast/parser.go: the passes over the lines of a text, on a text given by its lines.
use prowiki.Base.{
  has_prefix, trim_space, trim_left, trim_right, ℕ, ◌≡◌, refl, ap, ◌∙◌, Bool, false, not, List, [],
  ◌∷◌, ◌++◌, select, All, ◌==◌, Bytes, bytes_eq, All-select, All-imp, ◌&&◌, arith,
}
use prowiki.Ast.{split, join, newline, strip_line_comments, strip_blank_lines, is_comment, is_blank}

-- A line has no newline in it.
abbrev pub IsLine : Bytes → Type 0
IsLine line = All (λ (c : ℕ). (c == newline) ≡ false) line

split-line : (line : Bytes) → IsLine line → split line ≡ line ∷ []
unfolding split
split-line [] h = refl
split-line (c ∷ s) h = ground (arith, h.0, split-line s h.1)

split-line_newline : (line s : Bytes) → IsLine line → split (line ++ newline ∷ s) ≡ line ∷ split s
unfolding split
split-line_newline [] s h = refl
split-line_newline (c ∷ line) s h = ground (arith, h.0, split-line_newline line s h.1)

split-join :
    (line : Bytes) (lines : List Bytes)
    → All IsLine (line ∷ lines)
    → split (join (line ∷ lines)) ≡ line ∷ lines
unfolding join
split-join line [] h = split-line line h.0
split-join line (next ∷ lines) h =
    split-line_newline line (join (next ∷ lines)) h.0
    ∙ ap (λ (ls : List Bytes). line ∷ ls) (split-join next lines h.1)

abbrev pub kept_blank : Bytes → Bool
kept_blank line = not (is_blank line)

abbrev pub kept_comment : Bytes → Bytes → Bool
kept_comment prefix line = not (is_comment prefix line)

-- What the two passes over lines do to a text of given lines.
pub strip_blank_lines-join :
    (lines : List Bytes)
    → All IsLine lines
    → strip_blank_lines (join lines) ≡ join (select kept_blank lines)
unfolding strip_blank_lines split join trim_space trim_left trim_right bytes_eq
strip_blank_lines-join [] h = refl
strip_blank_lines-join (line ∷ lines) h =
    ap (λ (ls : List Bytes). join (select kept_blank ls)) (split-join line lines h)

pub select-middle :
    (p : Bytes → Bool) (xs ys : List Bytes) (line : Bytes)
    → p line ≡ false
    → select p (xs ++ line ∷ ys) ≡ select p (xs ++ ys)
select-middle p [] ys line h = ground (arith, h)
select-middle p (x ∷ xs) ys line h = ground (arith, select-middle p xs ys line h)

strip_line_comments-join :
    (prefix : Bytes) (lines : List Bytes)
    → has_prefix prefix [] ≡ false
    → All IsLine lines
    → strip_line_comments (join lines) prefix ≡ join (select (kept_comment prefix) lines)
unfolding strip_line_comments split join trim_space trim_left trim_right
strip_line_comments-join prefix [] e h = ground (arith, e)
strip_line_comments-join prefix (line ∷ lines) e h =
    ap (λ (ls : List Bytes). join (select (kept_comment prefix) ls)) (split-join line lines h)

select-select :
    (p q : Bytes → Bool) (xs : List Bytes)
    → select q (select p xs) ≡ select (λ (x : Bytes). p x && q x) xs
select-select p q [] = refl
select-select p q (x ∷ xs) = ground (arith, select-select p q xs)

select-IsLine : (p : Bytes → Bool) (xs : List Bytes) → All IsLine xs → All IsLine (select p xs)
select-IsLine p xs h = All-select IsLine p xs (All-imp (λ x k e. k) xs h)

-- Both passes over the lines of a text.
pub strip_lines-join :
    (prefix : Bytes) (lines : List Bytes)
    → has_prefix prefix [] ≡ false
    → All IsLine lines
    → strip_blank_lines (strip_line_comments (join lines) prefix)
      ≡ join (select (λ (x : Bytes). kept_comment prefix x && kept_blank x) lines)
strip_lines-join prefix lines e h =
    ap strip_blank_lines (strip_line_comments-join prefix lines e h)
    ∙ strip_blank_lines-join (select (kept_comment prefix) lines)
        (select-IsLine (kept_comment prefix) lines h)
    ∙ ap join (select-select (kept_comment prefix) kept_blank lines)

pub select-congr :
    (p q : Bytes → Bool) (xs : List Bytes) → ((x : Bytes) → p x ≡ q x) → select p xs ≡ select q xs
select-congr p q [] e = refl
select-congr p q (x ∷ xs) e = ground (arith, e x, select-congr p q xs e)
