-- ===== src/Scrub/Hits.antt =====
-- internal/scrub/scrubber.go: the number of hits.
use prowiki.Base.{
  ℕ, suc, ◌+◌, ◌-◌, ◌≤◌, ◌≡◌, refl, sym, ap, ◌∙◌, ◌==◌, List, [], ◌∷◌, length, arith, Option-cases,
  Bool-cases, inl, inr, Bytes,
}
use prowiki.Domain.Language.{Language}
use prowiki.Scrub.{marker, rules, kv_rule, scrub_rules, scrub_values, scrub}
use prowiki.Scrub.Engine.{Regex, rest_after, replace_all, count_all}

no_match :
    (r : Regex) (f : Bytes → Bytes) (s : Bytes) → count_all r 0 s ≡ 0 → replace_all r f 0 s ≡ s
unfolding replace_all count_all
no_match r f [] h = refl
no_match r f (x ∷ s) h = elim (Option-cases (rest_after r (x ∷ s))) [
  | inl e ↦
      let same : count_all r 0 (x ∷ s) ≡ count_all r 0 s = rw (e, count_all) refl in
      rw (e, replace_all) (ap (λ t. x ∷ t) (no_match r f s (sym same ∙ h)))
  | inr (rest, e) ↦
      let more : count_all r 0 (x ∷ s) ≡ suc (count_all r (length s - length rest) s) =
        rw (e, count_all) refl in
      absurd (omega arith)
]

rules-grow : (rs : List Regex) (s : Bytes) (hits : ℕ) → hits ≤ (scrub_rules rs (s, hits)).1
unfolding scrub_rules
rules-grow [] s hits = omega arith
rules-grow (r ∷ rs) s hits =
    omega (arith, rules-grow rs (replace_all r (λ m. marker) 0 s) (hits + count_all r 0 s))

rules_unchanged :
    (rs : List Regex) (s : Bytes) (hits : ℕ)
    → (scrub_rules rs (s, hits)).1 ≡ 0
    → (scrub_rules rs (s, hits)).0 ≡ s
unfolding scrub_rules
rules_unchanged [] s hits h = refl
rules_unchanged (r ∷ rs) s hits h =
    let grown = rules-grow rs (replace_all r (λ m. marker) 0 s) (hits + count_all r 0 s) in
    rules_unchanged rs (replace_all r (λ m. marker) 0 s) (hits + count_all r 0 s) h
    ∙ no_match r (λ m. marker) s (omega arith)

values_unchanged : (r : Bytes × ℕ) → (scrub_values r).1 ≡ 0 → (r.1 ≡ 0) × ((scrub_values r).0 ≡ r.0)
values_unchanged (s, hits) h = elim (Bool-cases (count_all kv_rule 0 s == 0)) [
  | inl e ↦ let same : (scrub_values (s, hits)).1 ≡ hits = rw e refl in (sym same ∙ h, rw e refl)
  | inr e ↦
      let more : (scrub_values (s, hits)).1 ≡ hits + count_all kv_rule 0 s = rw e refl in
      absurd (ground arith)
]

-- A text for which `Scrub` reports no hit is returned as it was.
pub scrub_unchanged :
    (content : Bytes) (lang : Language)
    → (scrub content lang).1 ≡ 0
    → (scrub content lang).0 ≡ content
unfolding scrub
scrub_unchanged content lang h =
    let (none_yet, same) = values_unchanged (scrub_rules rules (content, 0)) h in
    same ∙ rules_unchanged rules content 0 none_yet
