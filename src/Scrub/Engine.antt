-- ===== src/Scrub/Engine.antt =====
-- The forms of regular expression that internal/scrub/scrubber.go writes, as the package `regexp` of
-- Go's standard library matches them: leftmost, and the first by preference among those that begin
-- there. A text is its code points.
pub mod Reached
use prowiki.Base.{
  ℕ, zero, suc, ◌-◌, Bool, true, false, ◌&&◌, ◌||◌, List, [], ◌∷◌, ◌++◌, ◌==◌, leb, length, take,
  if◌then◌else◌, Option, none, some, Bytes,
}

abbrev pub Class : Type 0
Class = ℕ → Bool

pub data Regex : Type 0 where
  nothing : Regex
  one : Class → Regex
  -- as many as possible, or as few as possible
  greedy lazy : Class → Regex
  seq alt : Regex → Regex → Regex

unfoldable pub repeat_greedy {ℓ} : {R : Type ℓ} → Class → (Bytes → Option R) → Bytes → Option R
repeat_greedy c k [] = k []
repeat_greedy c k (x ∷ s) = elim (c x) [
  | true ↦ elim (repeat_greedy c k s) [ some r ↦ some r | none ↦ k (x ∷ s) ]
  | false ↦ k (x ∷ s)
]

unfoldable pub repeat_lazy {ℓ} : {R : Type ℓ} → Class → (Bytes → Option R) → Bytes → Option R
repeat_lazy c k [] = k []
repeat_lazy c k (x ∷ s) = elim (k (x ∷ s)) [
  | some r ↦ some r
  | none ↦ elim (c x) [ true ↦ repeat_lazy c k s | false ↦ none ]
]

-- A match at the start of the text, continued on what is left.
unfoldable pub match_at {ℓ} : {R : Type ℓ} → Regex → (Bytes → Option R) → Bytes → Option R
unfolding repeat_greedy repeat_lazy
match_at nothing k s = k s
match_at (one c) k [] = none
match_at (one c) k (x ∷ s) = if c x then k s else none
match_at (greedy c) k s = repeat_greedy c k s
match_at (lazy c) k s = repeat_lazy c k s
match_at (seq a b) k s = match_at a (match_at b k) s
match_at (alt a b) k s = elim (match_at a k s) [ some r ↦ some r | none ↦ match_at b k s ]

-- What is left behind a match at the start.
abbrev pub rest_after : Regex → Bytes → Option Bytes
rest_after r s = match_at r some s

-- `ReplaceAllStringFunc`, of expressions that match no empty text; `skip` characters belong to the
-- last match.
unfoldable pub replace_all : Regex → (Bytes → Bytes) → ℕ → Bytes → Bytes
unfolding match_at
replace_all r f skip [] = []
replace_all r f (suc skip) (x ∷ s) = replace_all r f skip s
replace_all r f zero (x ∷ s) = elim (rest_after r (x ∷ s)) [
  | none ↦ x ∷ replace_all r f 0 s
  | some rest ↦ let n = length s - length rest in f (x ∷ take n s) ++ replace_all r f n s
]

-- The number of matches that `FindAllString` gives.
unfoldable pub count_all : Regex → ℕ → Bytes → ℕ
unfolding match_at
count_all r skip [] = 0
count_all r (suc skip) (x ∷ s) = count_all r skip s
count_all r zero (x ∷ s) = elim (rest_after r (x ∷ s)) [
  | none ↦ count_all r 0 s
  | some rest ↦ suc (count_all r (length s - length rest) s)
]

abbrev pub is : ℕ → Class
is c x = x == c

abbrev pub any_of : Bytes → Class
any_of [] x = false
any_of (c ∷ cs) x = x == c || any_of cs x

abbrev pub between : ℕ → ℕ → Class
between a b x = leb a x && leb x b

-- A sequence of classes, and the texts that begin with one.
abbrev pub fixed : List Class → Regex
fixed [] = nothing
fixed (c ∷ cs) = seq (one c) (fixed cs)

abbrev pub literal : Bytes → List Class
literal [] = []
literal (c ∷ cs) = is c ∷ literal cs

abbrev pub times : ℕ → Class → List Class
times zero c = []
times (suc n) c = c ∷ times n c

-- One or more.
abbrev pub some_of : Class → Regex
some_of c = seq (one c) (greedy c)

abbrev pub optional : Regex → Regex
optional r = alt r nothing
