-- ===== src/Domain/Language.antt =====
-- internal/domain/language.go, with the standard library's `filepath.Ext` and `strings.ToLower` on
-- ASCII bytes.
use prowiki.Base.{
  ℕ, ◌+◌, ◌&&◌, String, [], ◌∷◌, ◌==◌, leb, if◌then◌else◌, Bytes, codes, bytes_eq, map,
}

-- The suffix that begins at the last dot of the last path element; `ext` is the answer so far.
unfoldable pub ext_from : Bytes → Bytes → Bytes
ext_from ext [] = ext
ext_from ext (c ∷ cs) = ext_from (if c == b'/' then [] else if c == b'.' then c ∷ cs else ext) cs

unfoldable pub ext : Bytes → Bytes
unfolding ext_from
ext path = ext_from [] path

unfoldable pub to_lower : ℕ → ℕ
to_lower c = if leb b'A' c && leb c b'Z' then c + 32 else c

abbrev pub Language : Type 0
Language = String

-- `LanguageFromPath`
unfoldable pub language_from_path : Bytes → Language
unfolding ext to_lower bytes_eq
language_from_path path =
    let e = map to_lower (ext path) in
    if bytes_eq e (codes ".go")
    then "go"
    else if bytes_eq e (codes ".py")
    then "python"
    else if bytes_eq e (codes ".js")
    then "javascript"
    else if bytes_eq e (codes ".ts")
    then "typescript"
    else ""
