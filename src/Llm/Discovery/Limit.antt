-- ===== src/Llm/Discovery/Limit.antt =====
-- internal/llm/discovery.go: what the search finds of a model with a limit.
use prowiki.Base.{
  ℕ, suc, ◌+◌, ◌-◌, ◌*◌, ◌/◌, ◌≤◌, ◌<◌, ◌≡◌, ◌∙◌, false, String, ◌==◌, Option, some, Bytes, arith,
  ◌⊎◌, inl, inr, le_or_lt,
}
use prowiki.Domain.Errors.{Error, Result, ok, err}
use prowiki.Llm.Request.{Completer}
use prowiki.Llm.Discovery.{probe, search, start, epsilon, discover_boundary}

-- A model that answers up to a limit of tokens, and overflows above it.
abbrev pub Limited : String → Completer → ℕ → Type 0
Limited model completer limit =
    (calls tokens : ℕ)
    → (tokens ≤ limit → (text : Bytes) × (completer calls (probe model tokens) ≡ ok text))
      × (limit < tokens → completer calls (probe model tokens) ≡ err Error.context_overflow)

-- What the rest of the search finds from its current point, if the points that it may still try go
-- `reach` to both sides: the threshold that it had if all are above the limit, or else the highest
-- point of a grid of 15625 up to the limit, or the last point.
abbrev Found : ℕ → ℕ → ℕ → ℕ → Option (Result ℕ) → Type 0
Found limit reach current before result =
    (limit + reach < current → result ≡ some (ok before))
    × (current ≤ limit + reach
        → (t : ℕ) × (result ≡ some (ok t))
          × (t ≤ limit)
          × (t ≤ current + reach)
          × (current ≤ t + reach)
          × ((limit < t + 15625) ⊎ (t ≡ current + reach)))

module _ (model : String) (completer : Completer) (limit : ℕ)
    (h : Limited model completer limit) where
  fits_probe :
      (rounds calls c s t : ℕ)
      → epsilon < s
      → c ≤ limit
      → search (suc rounds) model completer calls (record { current = c; step = s; threshold = t })
        ≡ search rounds model completer
            (suc calls)
            (record { current = c + s; step = s / 2; threshold = c })
  unfolding search
  fits_probe rounds calls c s t big e =
      let (text, answer) = (h calls c).0 e in ground (arith, answer)

  overflows_probe :
      (rounds calls c s t : ℕ)
      → epsilon < s
      → limit < c
      → search (suc rounds) model completer calls (record { current = c; step = s; threshold = t })
        ≡ search rounds model completer
            (suc calls)
            (record { current = c - s; step = s / 2; threshold = t })
  unfolding search
  overflows_probe rounds calls c s t big e = let answer = (h calls c).1 e in ground (arith, answer)

  ended :
      (rounds calls c s t : ℕ)
      → s ≤ epsilon
      → search (suc rounds) model completer calls (record { current = c; step = s; threshold = t })
        ≡ some (ok t)
  unfolding search
  ended rounds calls c s t small = ground arith

  -- What one more round before a search finds.
  halved :
      (rounds calls c s t reach : ℕ)
      → epsilon < s
      → s ≡ reach + 15625
      → s + reach < c
      → ((calls' c' t' : ℕ)
          → reach < c'
          → Found limit reach c' t' (
              search rounds model completer calls'
                (record { current = c'; step = s / 2; threshold = t' })))
      → Found limit (s + reach) c t (
          search
            (suc rounds)
            model
            completer
            calls
            (record { current = c; step = s; threshold = t }))
  halved rounds calls c s t reach big size room next = elim (le_or_lt c limit) [
    | inl e ↦
        let step = fits_probe rounds calls c s t big e in
        let (low, high) = next (suc calls) (c + s) c (omega arith) in
        (
          λ over. absurd (omega arith),
          λ under. elim (le_or_lt (c + s) (limit + reach)) [
            | inr above ↦ (c, step ∙ low above, e, omega arith, omega arith, inl (omega arith))
            | inl below ↦
                let (found, is_found, under_limit, left, right, best) = high below in
                (
                  found,
                  step ∙ is_found,
                  under_limit,
                  omega arith,
                  omega arith,
                  elim best [ inl close ↦ inl close | inr last ↦ inr (omega arith) ],
                )
          ],
        )
    | inr e ↦
        let step = overflows_probe rounds calls c s t big e in
        let (low, high) = next (suc calls) (c - s) t (omega arith) in
        (
          λ over. step ∙ low (omega arith),
          λ under.
              let (found, is_found, under_limit, left, right, best) = high (omega arith) in
              (
                found,
                step ∙ is_found,
                under_limit,
                omega arith,
                omega arith,
                elim best [ inl close ↦ inl close | inr last ↦ inl (omega arith) ],
              ),
        )
  ]

  last_round :
      (calls c t : ℕ)
      → Found limit 0 c t
          (search 2 model completer calls (record { current = c; step = 7812; threshold = t }))
  last_round calls c t = elim (le_or_lt c limit) [
    | inl e ↦ (
      λ over. absurd (omega arith),
      λ under. (
        c,
        fits_probe 1 calls c 7812 t (omega arith) e
            ∙ ended 0 (suc calls) (c + 7812) 3906 c (omega arith),
        e,
        omega arith,
        omega arith,
        inr (omega arith),
      ),
    )
    | inr e ↦ (
      λ over.
          overflows_probe 1 calls c 7812 t (omega arith) e
          ∙ ended 0 (suc calls) (c - 7812) 3906 t (omega arith),
      λ under. absurd (omega arith),
    )
  ]

  whole_search : Found limit 484375 1000000 0 (search 7 model completer 0 start)
  whole_search =
      halved 6 0 1000000 250000 0 234375 (omega arith) (omega arith) (omega arith)
        (λ calls5 c5 t5 room5.
          halved 5 calls5 c5 125000 t5 109375 (omega arith) (omega arith) (omega arith)
            (λ calls4 c4 t4 room4.
              halved 4 calls4 c4 62500 t4 46875 (omega arith) (omega arith) (omega arith)
                (λ calls3 c3 t3 room3.
                  halved 3 calls3 c3 31250 t3 15625 (omega arith) (omega arith) (omega arith)
                    (λ calls2 c2 t2 room2.
                      halved 2 calls2 c2 15625 t2 0 (omega arith) (omega arith) (omega arith)
                        (λ calls1 c1 t1 room1. last_round calls1 c1 t1)))))

  -- `DiscoverBoundary` always ends. A model that answers up to a limit of fewer than 515625 tokens is the
  -- error that no threshold was found. From there on it returns nine tenths of a number of tokens that
  -- the model takes, which is short of the limit by fewer than 15625 or is 1484375, the last that the
  -- search can try.
  pub discover_boundary_lem :
      (limit < 515625
        → discover_boundary model completer
          ≡ some (err (Error.message "could not find a safe token threshold")))
      × (515625 ≤ limit
          → (t : ℕ) × (discover_boundary model completer ≡ some (ok (t * 9 / 10)))
            × (t ≤ limit)
            × ((limit < t + 15625) ⊎ (t ≡ 1484375)))
  unfolding discover_boundary
  discover_boundary_lem =
      let (low, high) = whole_search in
      (
        λ under. ground (arith, low (omega arith)),
        λ over.
            let (t, found, under_limit, left, right, best) = high (omega arith) in
            let some_found : (t == 0) ≡ false = ground arith in
            (t, ground (arith, found, some_found), under_limit, best),
      )
