-- ===== src/Llm/Client/Retry.antt =====
-- internal/llm/client.go: how often a request is sent, and with what result.
use prowiki.Base.{
  ℕ, zero, suc, ◌+◌, ◌≤◌, ◌<◌, ◌≡◌, refl, subst, true, false, Option, none, some, Bytes, arith, ◌⊎◌,
  inl, inr, Bool-cases, Option-cases, le_or_lt,
}
use prowiki.Domain.Errors.{Error, Result, ok, err, panicked}
use prowiki.Llm.Client.{Outcome, attempts, map_error, is_final, max_retries}

pub Result-cases :
    {A : Type 0} (r : Result A)
    → ((a : A) × (r ≡ ok a)) ⊎ (((e : Error) × (r ≡ err e)) ⊎ ((p : _) × (r ≡ panicked p)))
Result-cases (ok a) = inl (a, refl)
Result-cases (err e) = inr (inl (e, refl))
Result-cases (panicked p) = inr (inr (p, refl))

module _ (call : ℕ → Result Bytes) (cancelled : ℕ → Option Error) where
  -- The attempt `n` failed in a way that is tried again, and the wait after it was not cut off.
  abbrev pub IsRetried : ℕ → Type 0
  IsRetried n =
      (e : Error) × (call n ≡ err e) × (is_final (map_error e) ≡ false) × (cancelled n ≡ none)

  -- What ends the loop at the attempt `n`: an answer or a panic of the call, an error that is not
  -- tried again or has no retry left, or the end of the context.
  abbrev pub EndsWith : ℕ → Type 0 → Result Bytes → Type 0
  EndsWith n IsSpent result =
      ((text : Bytes) × (call n ≡ ok text) × (result ≡ ok text))
      ⊎ (((p : _) × (call n ≡ panicked p) × (result ≡ panicked p))
          ⊎ ((e : Error) × (call n ≡ err e)
              × ((((is_final (map_error e) ≡ true) ⊎ IsSpent) × (result ≡ err (map_error e)))
                  ⊎ ((stopped : Error) × (cancelled n ≡ some stopped) × (result ≡ err stopped)))))

  -- What a loop with some retries left returns from the attempt `n` on: there is a last attempt, at most
  -- so many later, and all before it failed in a way that is tried again.
  abbrev pub Tried : ℕ → ℕ → Outcome → Type 0
  Tried retries n o =
      (last : ℕ) × (n ≤ last)
      × (last ≤ n + retries)
      × (o.calls ≡ suc last)
      × ((j : ℕ) → n ≤ j → j < last → IsRetried j)
      × EndsWith last (last ≡ n + retries) o.result

  ends_now :
      (retries n : ℕ) (o : Outcome)
      → o.calls ≡ suc n
      → EndsWith n (n ≡ n + retries) o.result
      → Tried retries n o
  ends_now retries n o counted ends =
      (n, omega arith, omega arith, counted, λ j low high. absurd (omega arith), ends)

  EndsWith-imp :
      {P Q : Type 0} (n : ℕ) (r : Result Bytes) → (P → Q) → EndsWith n P r → EndsWith n Q r
  EndsWith-imp n r f (inl answer) = inl answer
  EndsWith-imp n r f (inr (inl panic)) = inr (inl panic)
  EndsWith-imp n r f (inr (inr (e, failed, inr stopped))) = inr (inr (e, failed, inr stopped))
  EndsWith-imp n r f (inr (inr (e, failed, inl (inl final, same)))) =
      inr (inr (e, failed, inl (inl final, same)))
  EndsWith-imp n r f (inr (inr (e, failed, inl (inr spent, same)))) =
      inr (inr (e, failed, inl (inr (f spent), same)))

  goes_on : (left n : ℕ) (o : Outcome) → IsRetried n → Tried left (suc n) o → Tried (suc left) n o
  goes_on left n o retried (last, from, to, counted, before, ends) = (
    last,
    omega arith,
    omega arith,
    counted,
    λ j low high. elim (le_or_lt (suc n) j) [
      | inl later ↦ before j later high
      | inr not_later ↦ let here : n ≡ j = omega arith in subst IsRetried here retried
    ],
    EndsWith-imp last o.result (λ spent. omega arith) ends,
  )

  attempts-Tried : (retries n : ℕ) → Tried retries n (attempts call cancelled retries n)
  unfolding attempts
  attempts-Tried zero n = elim (Result-cases (call n)) [
    | inl (text, e) ↦ ends_now 0 n _ (ground (arith, e)) (inl (text, e, ground (arith, e)))
    | inr (inr (p, e)) ↦ ends_now 0 n _ (ground (arith, e)) (inr (inl (p, e, ground (arith, e))))
    | inr (inl (f, e)) ↦
        ends_now 0 n _ (ground (arith, e))
          (inr (inr (f, e, inl (inr (omega arith), ground (arith, e)))))
  ]
  attempts-Tried (suc left) n = elim (Result-cases (call n)) [
    | inl (text, e) ↦ ends_now (suc left) n _ (ground (arith, e)) (inl (text, e, ground (arith, e)))
    | inr (inr (p, e)) ↦
        ends_now (suc left) n _ (ground (arith, e)) (inr (inl (p, e, ground (arith, e))))
    | inr (inl (f, e)) ↦ elim (Bool-cases (is_final (map_error f))) [
      | inl final ↦
          ends_now (suc left) n _ (ground (arith, e, final))
            (inr (inr (f, e, inl (inl final, ground (arith, e, final)))))
      | inr retryable ↦ elim (Option-cases (cancelled n)) [
        | inr (stopped, c) ↦
            ends_now (suc left) n _ (ground (arith, e, retryable, c))
              (inr (inr (f, e, inr (stopped, c, ground (arith, e, retryable, c)))))
        | inl c ↦
            let same : attempts call cancelled left (suc n) ≡ attempts call cancelled (suc left) n =
              ground (arith, e, retryable, c) in
            subst (Tried (suc left) n) same
              (goes_on left n _ (f, e, retryable, c) (attempts-Tried left (suc n)))
      ]
    ]
  ]

  -- A request is sent at most four times, and again only after an error that is neither about the key
  -- nor about the length of the context, while the context of the call lasts. The result is that of the
  -- last attempt, its error as `mapError` gives it, or the error of the context where that ended in the
  -- wait after it.
  pub attempts_lem :
      Tried max_retries 0 (attempts call cancelled max_retries 0)
      × ((attempts call cancelled max_retries 0).calls ≤ 4)
  attempts_lem =
      let tried = attempts-Tried max_retries 0 in
      let (last, from, to, counted, before, ends) = tried in (tried, omega arith)
