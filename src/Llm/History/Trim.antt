-- ===== src/Llm/History/Trim.antt =====
-- internal/llm/history.go: what `TrimToBudget` leaves of a conversation.
use prowiki.Base.{
  ℕ, zero, suc, ◌<◌, ◌≡◌, refl, ap, ◌∙◌, sym, true, false, List, [], ◌∷◌, length, if◌then◌else◌,
  Option, none, some, arith, select, not, ◌⊎◌, inl, inr, Bool-cases, Option-cases, subst,
}
use prowiki.Llm.Request.{Message}
use prowiki.Llm.History.{History, Counter, is_system, remove_first, fits, trim, trim_to_budget}

abbrev pub others : List Message → List Message
others = select (λ (m : Message). not (is_system m))

-- The messages without the oldest `k` that are not of the system.
unfoldable pub without_oldest : ℕ → List Message → List Message
without_oldest zero ms = ms
without_oldest (suc k) [] = []
without_oldest (suc k) (m ∷ ms) =
    let kept = without_oldest (suc k) ms in
    let cut = without_oldest k ms in if is_system m then m ∷ kept else cut

-- What is left after `k` removals: the system's messages and all others but the oldest `k`.
pub record IsTrimmed (counter : Counter) (budget k : ℕ) (ms out : List Message) : Type 0 where
  pub left : out ≡ without_oldest k ms
  pub needed : (j : ℕ) → j < k → fits counter budget (without_oldest j ms) ≡ false
  pub done : (fits counter budget out ≡ true) ⊎ (others out ≡ [])

drop_system :
    (m : Message) (ms rest : List Message)
    → is_system m ≡ true
    → ((k : ℕ) → without_oldest (suc k) ms ≡ without_oldest k rest)
    → (k : ℕ) → without_oldest (suc k) (m ∷ ms) ≡ without_oldest k (m ∷ rest)
unfolding without_oldest
drop_system m ms rest e h zero = ground (arith, e, h 0)
drop_system m ms rest e h (suc k) = ground (arith, e, h (suc k))

drop_other :
    (m : Message) (ms : List Message)
    → is_system m ≡ false
    → (k : ℕ) → without_oldest (suc k) (m ∷ ms) ≡ without_oldest k ms
unfolding without_oldest
drop_other m ms e k = ground (arith, e)

abbrev MinusOne : Message → List Message → List Message → Type 0
MinusOne m ms r =
    ((k : ℕ) → without_oldest (suc k) (m ∷ ms) ≡ without_oldest k r)
    × (suc (length r) ≡ length (m ∷ ms))

remove_first-some :
    (ms rest : List Message)
    → remove_first ms ≡ some rest
    → ((k : ℕ) → without_oldest (suc k) ms ≡ without_oldest k rest)
      × (suc (length rest) ≡ length ms)
unfolding remove_first
remove_first-some [] rest h = absurd (cc)
remove_first-some (m ∷ ms) rest h = elim (Bool-cases (is_system m)) [
  | inr e ↦
      let same : ms ≡ rest = ground (arith, e) in
      subst (MinusOne m ms) same (drop_other m ms e, refl)
  | inl e ↦ elim (Option-cases (remove_first ms)) [
    | inl none_left ↦ absurd (ground (arith, e, none_left))
    | inr (kept, found) ↦
        let same : (m ∷ kept) ≡ rest = ground (arith, e, found) in
        let (step, shorter) = remove_first-some ms kept found in
        subst (MinusOne m ms) same (drop_system m ms kept e step, ap suc shorter)
  ]
]

remove_first-none : (ms : List Message) → remove_first ms ≡ none → others ms ≡ []
unfolding remove_first
remove_first-none [] h = refl
remove_first-none (m ∷ ms) h = elim (Bool-cases (is_system m)) [
  | inr e ↦ absurd (ground (arith, e))
  | inl e ↦ elim (Option-cases (remove_first ms)) [
    | inl none_left ↦ ground (arith, e, remove_first-none ms none_left)
    | inr (kept, found) ↦ absurd (ground (arith, e, found))
  ]
]

-- What a loop of a given number of rounds returns.
abbrev pub Trimmed : Counter → ℕ → List Message → Option (List Message) → Type 0
Trimmed counter budget ms result =
    (out : List Message) × (result ≡ some out) × (k : ℕ) × IsTrimmed counter budget k ms out

trim_further :
    (counter : Counter) (budget : ℕ) (ms rest : List Message) (result : Option (List Message))
    → fits counter budget ms ≡ false
    → ((k : ℕ) → without_oldest (suc k) ms ≡ without_oldest k rest)
    → Trimmed counter budget rest result
    → Trimmed counter budget ms result
unfolding without_oldest
trim_further counter budget ms rest result full step (out, e, k, t) =
    (out, e, suc k, record { left = t.left ∙ sym (step k); needed = all_full; done = t.done })
  where
    all_full : (j : ℕ) → j < suc k → fits counter budget (without_oldest j ms) ≡ false
    all_full zero h = full
    all_full (suc j) h = ap (fits counter budget) (step j) ∙ t.needed j (omega arith)

trim_enough :
    (counter : Counter) (budget rounds : ℕ) (ms : List Message)
    → length ms < rounds
    → Trimmed counter budget ms (trim rounds counter budget ms)
unfolding trim without_oldest
trim_enough counter budget zero ms h = absurd (omega arith)
trim_enough counter budget (suc rounds) ms h = elim (Bool-cases (fits counter budget ms)) [
  | inl e ↦ (
    ms,
    ground (arith, e),
    0,
    record { left = refl; needed = λ j below. absurd (omega arith); done = inl e },
  )
  | inr e ↦ elim (Option-cases (remove_first ms)) [
    | inl none_left ↦ (
      ms,
      ground (arith, e, none_left),
      0,
      record {
        left = refl;
        needed = λ j below. absurd (omega arith);
        done = inr (remove_first-none ms none_left);
      },
    )
    | inr (rest, found) ↦
        let (step, shorter) = remove_first-some ms rest found in
        let same : trim rounds counter budget rest ≡ trim (suc rounds) counter budget ms =
          ground (arith, e, found) in
        trim_further counter budget ms rest (trim (suc rounds) counter budget ms) e step (
          subst (Trimmed counter budget rest) same
            (trim_enough counter budget rounds rest (omega arith)))
  ]
]

-- `TrimToBudget` always ends. It removes the oldest messages that are not of the system, and only as
-- many as it must: with fewer removals the conversation is over the budget, and what is left is within
-- the budget (or the counter fails on it) or has messages of the system alone.
pub trim_to_budget-Trimmed :
    (h : History) (budget : ℕ) → Trimmed h.counter budget h.messages (trim_to_budget h budget)
unfolding trim_to_budget
trim_to_budget-Trimmed h budget =
    trim_enough h.counter budget (suc (length h.messages)) h.messages (omega arith)
