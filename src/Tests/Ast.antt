-- ===== src/Tests/Ast.antt =====
-- The theorem on ignored lines, on a small Go file.
use prowiki.Base.{◌≡◌, refl, String, [], ◌∷◌, length, leb, if◌then◌else◌, Bytes, codes, bytes_eq}
use prowiki.Ast.{parse, join}
use prowiki.Ast.Ignored.{parse-ignored}

abbrev digest : Bytes → String
digest s = if leb (length s) 4 then "short" else "long"

parse-ignored_example :
    parse digest "go" (join (codes "x" ∷ codes "//y" ∷ codes "z" ∷ []))
    ≡ parse digest "go" (join (codes "x" ∷ codes "z" ∷ []))
unfolding join prowiki.Base.trim_space prowiki.Base.trim_left prowiki.Base.trim_right
    prowiki.Base.has_prefix prowiki.Base.contains bytes_eq prowiki.Domain.Language.to_lower
parse-ignored_example =
    parse-ignored digest "go" (codes "x" ∷ []) (codes "z" ∷ []) (codes "//y")
      ((refl, tt), ((refl, (refl, (refl, tt))), ((refl, tt), tt))) ((refl, tt), ((refl, tt), tt))
      refl refl refl
