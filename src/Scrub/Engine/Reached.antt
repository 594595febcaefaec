-- ===== src/Scrub/Engine/Reached.antt =====
-- The regular expressions of internal/scrub/scrubber.go: what is left behind a match is no longer than
-- the text.
use prowiki.Base.{
  ℕ, ◌≤◌, ◌≡◌, refl, sym, ◌∙◌, [], ◌∷◌, length, arith, Option, none, some, Option-cases, Bool-cases,
  inl, inr, Bytes,
}
use prowiki.Scrub.Engine.{
  Class, Regex, nothing, one, greedy, lazy, seq, alt, match_at, repeat_greedy, repeat_lazy,
}

-- Where a match at the start goes on: on a rest that is no longer than the text.
pub record Reached {R : Type 0} (k : Bytes → Option R) (s : Bytes) (r : R) : Type 0 where
  pub rest : Bytes
  pub short : length rest ≤ length s
  pub result : k rest ≡ some r

Reached-later :
    {R : Type 0} (k : Bytes → Option R) (x : ℕ) (s : Bytes) (r : R)
    → Reached k s r
    → Reached k (x ∷ s) r
Reached-later k x s r h = record {
  rest = h.rest;
  short = let le = h.short in omega arith;
  result = h.result;
}

Reached-here :
    {R : Type 0} (k : Bytes → Option R) (s : Bytes) (r : R) → k s ≡ some r → Reached k s r
Reached-here k s r e = record { rest = s; short = omega arith; result = e }

module _ {R : Type 0} where
  greedy-Reached :
      (c : Class) (k : Bytes → Option R) (s : Bytes) (r : R)
      → repeat_greedy c k s ≡ some r
      → Reached k s r
  unfolding repeat_greedy
  greedy-Reached c k [] r h = Reached-here k [] r h
  greedy-Reached c k (x ∷ s) r h = elim (Bool-cases (c x)) [
    | inr e ↦
        let stops : repeat_greedy c k (x ∷ s) ≡ k (x ∷ s) = rw (e, repeat_greedy) refl in
        Reached-here k (x ∷ s) r (sym stops ∙ h)
    | inl e ↦ elim (Option-cases (repeat_greedy c k s)) [
      | inl n ↦
          let stops : repeat_greedy c k (x ∷ s) ≡ k (x ∷ s) = rw (e, repeat_greedy, n) refl in
          Reached-here k (x ∷ s) r (sym stops ∙ h)
      | inr (q, n) ↦
          let goes : repeat_greedy c k (x ∷ s) ≡ some q = rw (e, repeat_greedy, n) refl in
          Reached-later k x s r (greedy-Reached c k s r (n ∙ sym goes ∙ h))
    ]
  ]

  lazy-Reached :
      (c : Class) (k : Bytes → Option R) (s : Bytes) (r : R)
      → repeat_lazy c k s ≡ some r
      → Reached k s r
  unfolding repeat_lazy
  lazy-Reached c k [] r h = Reached-here k [] r h
  lazy-Reached c k (x ∷ s) r h = elim (Option-cases (k (x ∷ s))) [
    | inr (q, n) ↦
        let stops : repeat_lazy c k (x ∷ s) ≡ some q = rw (n, repeat_lazy) refl in
        Reached-here k (x ∷ s) r (n ∙ sym stops ∙ h)
    | inl n ↦ elim (Bool-cases (c x)) [
      | inl e ↦
          let goes : repeat_lazy c k (x ∷ s) ≡ repeat_lazy c k s = rw (n, repeat_lazy, e) refl in
          Reached-later k x s r (lazy-Reached c k s r (sym goes ∙ h))
      | inr e ↦
          let fails : repeat_lazy c k (x ∷ s) ≡ none = rw (n, repeat_lazy, e) refl in absurd (cc)
    ]
  ]

  pub match_at-Reached :
      (a : Regex) (k : Bytes → Option R) (s : Bytes) (r : R)
      → match_at a k s ≡ some r
      → Reached k s r
  unfolding match_at
  match_at-Reached nothing k s r h = Reached-here k s r h
  match_at-Reached (one c) k [] r h = absurd (cc)
  match_at-Reached (one c) k (x ∷ s) r h = elim (Bool-cases (c x)) [
    | inl e ↦
        let goes : match_at (one c) k (x ∷ s) ≡ k s = rw e refl in
        Reached-later k x s r (Reached-here k s r (sym goes ∙ h))
    | inr e ↦ let fails : match_at (one c) k (x ∷ s) ≡ none = rw e refl in absurd (cc)
  ]
  match_at-Reached (greedy c) k s r h = greedy-Reached c k s r h
  match_at-Reached (lazy c) k s r h = lazy-Reached c k s r h
  match_at-Reached (seq a b) k s r h =
      let first = match_at-Reached a (match_at b k) s r h in
      let second = match_at-Reached b k first.rest r first.result in
      record {
        rest = second.rest;
        short = let le = first.short in let less = second.short in omega arith;
        result = second.result;
      }
  match_at-Reached (alt a b) k s r h = elim (Option-cases (match_at a k s)) [
    | inr (q, n) ↦
        let takes : match_at (alt a b) k s ≡ some q = rw (n, match_at) refl in
        match_at-Reached a k s r (n ∙ sym takes ∙ h)
    | inl n ↦
        let goes : match_at (alt a b) k s ≡ match_at b k s = rw (n, match_at) refl in
        match_at-Reached b k s r (sym goes ∙ h)
  ]
