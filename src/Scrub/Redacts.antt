-- ===== src/Scrub/Redacts.antt =====
-- internal/scrub/scrubber.go: what a text keeps when parts of it are replaced by the marker.
use prowiki.Base.{
  ℕ, zero, suc, ◌≡◌, refl, sym, subst, ◌∙◌, Bool, true, false, ◌&&◌, ◌||◌, List, [], ◌∷◌, ◌++◌,
  length, drop, arith, Bool-cases, inl, inr, Bytes,
}
use prowiki.Scrub.{marker}
use prowiki.Scrub.Engine.{Class}

-- `t` is `s` with the marker in place of some of its parts.
pub data Redacts : Bytes → Bytes → Type 0 where
  done : Redacts [] []
  keep : {s t : Bytes} (c : ℕ) → Redacts s t → Redacts (c ∷ s) (c ∷ t)
  cut : {s t u : Bytes} (n : ℕ) → Redacts (drop n s) t → u ≡ marker ++ t → Redacts s u

pub Redacts-refl : (s : Bytes) → Redacts s s
Redacts-refl [] = done
Redacts-refl (c ∷ s) = keep c (Redacts-refl s)

drop-all : (s : Bytes) → drop (length s) s ≡ []
drop-all [] = refl
drop-all (c ∷ s) = drop-all s

pub marker-Redacts : (s : Bytes) → Redacts s marker
marker-Redacts s = cut (length s) (subst (λ r. Redacts r []) (sym (drop-all s)) done) refl

-- A text matches a sequence of classes at its start.
abbrev pub starts : List Class → Bytes → Bool
starts [] s = true
starts (c ∷ cs) [] = false
starts (c ∷ cs) (x ∷ s) = c x && starts cs s

-- Somewhere in it.
abbrev pub occurs : List Class → Bytes → Bool
occurs p [] = starts p []
occurs p (x ∷ s) = starts p (x ∷ s) || occurs p s

-- No class of a sequence takes the bracket that opens the marker.
abbrev pub NoBracket : List Class → Type 0
NoBracket [] = Unit
NoBracket (c ∷ cs) = (c b'[' ≡ false) × NoBracket cs

-- What the redacted text has at its start, the text had there.
pub starts-Redacts :
    {s t : Bytes} (p : List Class)
    → NoBracket p
    → Redacts s t
    → starts p t ≡ true
    → starts p s ≡ true
starts-Redacts [] free r h = refl
starts-Redacts (c ∷ cs) free done h = h
starts-Redacts (c ∷ cs) free (keep x r) h = ground (arith, starts-Redacts cs free.1 r)
starts-Redacts (c ∷ cs) free (cut {s} {t} {u} n r e) h =
    let here : starts (c ∷ cs) (marker ++ t) ≡ true = subst (λ v. starts (c ∷ cs) v ≡ true) e h in
    let no = free.0 in absurd (ground arith)

-- The marker and what follows it have no more than what follows it.
abbrev pub IsMarkerFree : List Class → Type 0
IsMarkerFree p = (t : Bytes) → occurs p (marker ++ t) ≡ occurs p t

occurs-drop :
    (p : List Class) (n : ℕ) (s : Bytes) → occurs p s ≡ false → occurs p (drop n s) ≡ false
occurs-drop p zero s h = h
occurs-drop p (suc n) [] h = h
occurs-drop p (suc n) (x ∷ s) h =
    occurs-drop p n s
      (elim (Bool-cases (starts p (x ∷ s))) [ inl e ↦ ground arith | inr e ↦ ground arith ])

-- A sequence that does not occur in a text does not occur in it after it was redacted.
pub occurs-Redacts :
    {s t : Bytes} (p : List Class)
    → NoBracket p
    → IsMarkerFree p
    → Redacts s t
    → occurs p s ≡ false
    → occurs p t ≡ false
occurs-Redacts p free clear done h = h
occurs-Redacts p free clear (keep {s} {t} x r) h =
    ground (arith, starts-Redacts p free (keep x r), occurs-Redacts p free clear r)
occurs-Redacts p free clear (cut {s} {t} {u} n r e) h =
    rw e (clear t ∙ occurs-Redacts p free clear r (occurs-drop p n s h))
