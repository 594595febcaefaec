-- ===== src/Scrub/Clean.antt =====
-- internal/scrub/scrubber.go: the scrubbed text holds no AWS key and no GitHub token.
use prowiki.Base.{
  ℕ, zero, suc, ◌-◌, ◌≤◌, ◌≡◌, refl, sym, ap, subst, ◌∙◌, false, ◌||◌, ◌==◌, List, [], ◌∷◌, ◌++◌,
  length, take, drop, arith, none, some, Option-cases, Bool-cases, inl, inr, Bytes, codes,
}
use mathlib.Core.List.{append_assoc}
use prowiki.Domain.Language.{Language}
use prowiki.Scrub.{
  marker, aws_key, github_token, rules, kv_rule, kv_before, kv_group, quote, bearer, password, jwt,
  private_key, group_rests, cut_value, scrub_rules, scrub_values, scrub, digit, upper, alphanumeric,
}
use prowiki.Scrub.Engine.{
  Class, Regex, fixed, match_at, rest_after, replace_all, count_all, literal, times,
}
use prowiki.Scrub.Engine.Reached.{match_at-Reached}
use prowiki.Scrub.Redacts.{
  Redacts, done, keep, cut, Redacts-refl, marker-Redacts, starts, occurs, NoBracket, IsMarkerFree,
  starts-Redacts, occurs-Redacts,
}

drop-append : (n : ℕ) (s c : Bytes) → (m : ℕ) × (drop m (s ++ c) ≡ drop n s ++ c)
drop-append zero s c = (0, refl)
drop-append (suc n) [] c = (0, refl)
drop-append (suc n) (x ∷ s) c = let (m, e) = drop-append n s c in (suc m, e)

pub Redacts-append : {a b c d : Bytes} → Redacts a b → Redacts c d → Redacts (a ++ c) (b ++ d)
Redacts-append done k = k
Redacts-append (keep x h) k = keep x (Redacts-append h k)
Redacts-append {c = c} {d = d} (cut {s} {t} {u} n h e) k =
    let (m, same) = drop-append n s c in
    cut m (subst (λ r. Redacts r (t ++ d)) (sym same) (Redacts-append h k))
      (ap (λ r. r ++ d) e ∙ append_assoc marker t d)

take-drop : (n : ℕ) (s : Bytes) → take n s ++ drop n s ≡ s
take-drop zero s = refl
take-drop (suc n) [] = refl
take-drop (suc n) (x ∷ s) = ap (λ r. x ∷ r) (take-drop n s)

replace_all-Redacts :
    (r : Regex) (f : Bytes → Bytes)
    → ((m : Bytes) → Redacts m (f m))
    → (skip : ℕ) (s : Bytes) → Redacts (drop skip s) (replace_all r f skip s)
unfolding replace_all
replace_all-Redacts r f hf zero [] = done
replace_all-Redacts r f hf (suc skip) [] = done
replace_all-Redacts r f hf (suc skip) (x ∷ s) = replace_all-Redacts r f hf skip s
replace_all-Redacts r f hf zero (x ∷ s) = elim (Option-cases (rest_after r (x ∷ s))) [
  | inl e ↦ rw (e, replace_all) (keep x (replace_all-Redacts r f hf 0 s))
  | inr (rest, e) ↦
      let n = length s - length rest in
      rw (e, replace_all)
        (subst (λ (m : Bytes). Redacts (x ∷ m) (f (x ∷ take n s) ++ replace_all r f n s))
          (take-drop n s) (Redacts-append (hf (x ∷ take n s)) (replace_all-Redacts r f hf n s)))
]

-- A text that the expression of a sequence does not match does not start with the sequence.
fixed-starts : (p : List Class) (s : Bytes) → rest_after (fixed p) s ≡ none → starts p s ≡ false
unfolding match_at
fixed-starts [] s h = absurd (cc)
fixed-starts (c ∷ cs) [] h = refl
fixed-starts (c ∷ cs) (x ∷ s) h = elim (Bool-cases (c x)) [
  | inl e ↦ rw e (fixed-starts cs s (rw e at h))
  | inr e ↦ rw e refl
]

-- Replacing the matches of a sequence by the marker leaves none.
replace_all-clean :
    (p : List Class)
    → NoBracket p
    → IsMarkerFree p
    → starts p [] ≡ false
    → (skip : ℕ) (s : Bytes) → occurs p (replace_all (fixed p) (λ m. marker) skip s) ≡ false
unfolding replace_all
replace_all-clean p free clear full zero [] = full
replace_all-clean p free clear full (suc skip) [] = full
replace_all-clean p free clear full (suc skip) (x ∷ s) = replace_all-clean p free clear full skip s
replace_all-clean p free clear full zero (x ∷ s) =
    elim (Option-cases (rest_after (fixed p) (x ∷ s))) [
      | inr (rest, e) ↦
          let n = length s - length rest in
          rw (e, replace_all)
            (clear (replace_all (fixed p) (λ m. marker) n s)
              ∙ replace_all-clean p free clear full n s)
      | inl e ↦
          let no : starts p (x ∷ s) ≡ false = fixed-starts p (x ∷ s) e in
          let tail = replace_all-clean p free clear full 0 s in
          let back =
            starts-Redacts p free
              (keep x (replace_all-Redacts (fixed p) (λ m. marker) marker-Redacts 0 s)) in
          rw (e, replace_all) (ground (arith, no, tail, back))
    ]

cut_middle : (i j : ℕ) (m : Bytes) → i ≤ j → Redacts m (take i m ++ (marker ++ drop j m))
cut_middle zero j m h = cut j (Redacts-refl (drop j m)) refl
cut_middle (suc i) zero m h = absurd (omega arith)
cut_middle (suc i) (suc j) [] h = cut 0 done refl
cut_middle (suc i) (suc j) (x ∷ m) h = keep x (cut_middle i j m (omega arith))

-- The group ends behind its start.
group_rests_short : (m from to : Bytes) → group_rests m ≡ some (from, to) → length to ≤ length from
group_rests_short m from to h =
    let a = match_at-Reached kv_before _ m (from, to) h in
    let b = match_at-Reached kv_group _ a.rest (from, to) a.result in
    let c = match_at-Reached quote _ b.rest (from, to) b.result in
    let pair : some (a.rest, b.rest) ≡ some (from, to) = c.result in
    let first : a.rest ≡ from = cc pair in
    let second : b.rest ≡ to = cc pair in
    let le = b.short in
    subst (λ f. length to ≤ length f) first (subst (λ t. length t ≤ length a.rest) second le)

cut_value-Redacts : (m : Bytes) → Redacts m (cut_value m)
unfolding cut_value
cut_value-Redacts m = elim (Option-cases (group_rests m)) [
  | inl e ↦ rw e (Redacts-refl m)
  | inr ((from, to), e) ↦
      let short = group_rests_short m from to e in
      rw e (cut_middle (length m - length from) (length m - length to) m (omega arith))
]

data Has (r : Regex) : List Regex → Type 0 where
  first : {rs : List Regex} → Has r (r ∷ rs)
  later : {rs : List Regex} (q : Regex) → Has r rs → Has r (q ∷ rs)

module _ (p : List Class) (free : NoBracket p) (clear : IsMarkerFree p)
    (full : starts p [] ≡ false) where
  rules-keep :
      (rs : List Regex) (s : Bytes) (hits : ℕ)
      → occurs p s ≡ false
      → occurs p (scrub_rules rs (s, hits)).0 ≡ false
  unfolding scrub_rules
  rules-keep [] s hits h = h
  rules-keep (r ∷ rs) s hits h =
      rules-keep rs (replace_all r (λ m. marker) 0 s) _
        (occurs-Redacts p free clear (replace_all-Redacts r (λ m. marker) marker-Redacts 0 s) h)

  rules-clean :
      {rs : List Regex}
      → Has (fixed p) rs
      → (s : Bytes) (hits : ℕ) → occurs p (scrub_rules rs (s, hits)).0 ≡ false
  unfolding scrub_rules
  rules-clean (first {rs}) s hits =
      rules-keep rs (replace_all (fixed p) (λ m. marker) 0 s) _
        (replace_all-clean p free clear full 0 s)
  rules-clean (later q h) s hits = rules-clean h (replace_all q (λ m. marker) 0 s) _

  values-keep : (r : Bytes × ℕ) → occurs p r.0 ≡ false → occurs p (scrub_values r).0 ≡ false
  values-keep (s, hits) h = elim (Bool-cases (count_all kv_rule 0 s == 0)) [
    | inl e ↦ rw e h
    | inr e ↦ rw e (
        occurs-Redacts p free clear (replace_all-Redacts kv_rule cut_value cut_value-Redacts 0 s) h)
  ]

NoBracket-append : (p q : List Class) → NoBracket p → NoBracket q → NoBracket (p ++ q)
NoBracket-append [] q hp hq = hq
NoBracket-append (c ∷ p) q hp hq = (hp.0, NoBracket-append p q hp.1 hq)

NoBracket-times : (n : ℕ) (c : Class) → c b'[' ≡ false → NoBracket (times n c)
NoBracket-times zero c h = tt
NoBracket-times (suc n) c h = (h, NoBracket-times n c h)

aws_key-NoBracket : NoBracket aws_key
aws_key-NoBracket =
    NoBracket-append (literal (codes "AKIA")) (times 16 (λ x. digit x || upper x))
      (refl, (refl, (refl, (refl, tt)))) (NoBracket-times 16 (λ x. digit x || upper x) refl)

github_token-NoBracket : NoBracket github_token
github_token-NoBracket = (refl, (refl, (refl, (refl, NoBracket-times 36 alphanumeric refl))))

-- A scrubbed text holds no AWS key (AKIA and sixteen digits or capitals) and no GitHub token (gh, one
-- of p, o, u, s and r, an underscore and 36 letters or digits) anywhere, whatever the text was and
-- whatever the other rules replaced.
pub scrub-clean :
    (content : Bytes) (lang : Language)
    → (occurs aws_key (scrub content lang).0 ≡ false)
      × (occurs github_token (scrub content lang).0 ≡ false)
unfolding scrub
scrub-clean content lang = (
  values-keep aws_key aws_key-NoBracket (λ t. refl) refl (scrub_rules rules (content, 0))
      (rules-clean aws_key aws_key-NoBracket (λ t. refl) refl {rs = rules} first content 0),
  values-keep github_token github_token-NoBracket (λ t. refl) refl (scrub_rules rules (content, 0))
      (rules-clean github_token github_token-NoBracket (λ t. refl) refl {rs = rules}
        (later (fixed aws_key)
          (later bearer (later password (later jwt (later private_key first)))))
        content 0),
)
