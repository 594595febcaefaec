-- ===== src/Api/Clean.antt =====
-- How `ServeMux` of net/http cleans a path before it looks for a route.
use prowiki.Base.{
  Bool, true, false, List, [], ◌∷◌, ◌++◌, drop, ◌==◌, if◌then◌else◌, Bytes, bytes_eq, codes,
}

-- The parts of a path between the slashes.
unfoldable pub segments : Bytes → Bytes → List Bytes
segments part [] = part ∷ []
segments part (c ∷ rest) =
    let split = segments [] rest in
    let longer = segments (part ++ c ∷ []) rest in if c == 47 then part ∷ split else longer

-- The last of the segments comes first.
abbrev pub push : List Bytes → Bytes → List Bytes
push stack s =
    if bytes_eq s []
    then stack
    else if bytes_eq s (codes ".")
    then stack
    else if bytes_eq s (codes "..")
    then drop 1 stack
    else s ∷ stack

unfoldable pub resolve : List Bytes → List Bytes → List Bytes
resolve stack [] = stack
resolve stack (s ∷ rest) = resolve (push stack s) rest

unfoldable pub rooted : List Bytes → Bytes
rooted [] = []
rooted (s ∷ stack) = rooted stack ++ codes "/" ++ s

abbrev or_root : Bytes → Bytes
or_root [] = codes "/"
or_root (c ∷ p) = c ∷ p

-- `path.Clean` of a path that begins with a slash.
abbrev pub clean : Bytes → Bytes
clean p = or_root (rooted (resolve [] (segments [] p)))

unfoldable pub ends_in_slash : Bytes → Bool
ends_in_slash [] = false
ends_in_slash (c ∷ []) = c == 47
ends_in_slash (c ∷ d ∷ p) = ends_in_slash (d ∷ p)

abbrev with_slash : Bool → Bytes → Bytes
with_slash false p = p
with_slash true p = if bytes_eq p (codes "/") then p else p ++ codes "/"

abbrev of_rooted : Bytes → Bytes
of_rooted p = with_slash (ends_in_slash p) (clean p)

-- `cleanPath`
unfoldable pub clean_path : Bytes → Bytes
unfolding segments resolve rooted ends_in_slash bytes_eq
clean_path [] = codes "/"
clean_path (c ∷ p) = if c == 47 then of_rooted (c ∷ p) else of_rooted (47 ∷ c ∷ p)
