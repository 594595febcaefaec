-- ===== src/Tokenizer/Budget.antt =====
-- internal/tokenizer with internal/llm/history.go: when a conversation can be cut to a budget.
use prowiki.Base.{
  ℕ, zero, suc, ◌+◌, ◌≤◌, ◌≡◌, refl, ap, ◌∙◌, sym, subst, true, List, [], ◌∷◌, Bytes, leb→le,
  Option, some, arith, select, inl, inr,
}
use prowiki.Llm.Request.{Message}
use prowiki.Llm.History.{Counter, is_system, fits, trim_to_budget}
use prowiki.Llm.History.Trim.{Trimmed, IsTrimmed, others, without_oldest, trim_to_budget-Trimmed}
use prowiki.Tokenizer.{sum_messages, heuristic_messages, heuristic_count}

select-without_oldest :
    (k : ℕ) (ms : List Message) → select is_system (without_oldest k ms) ≡ select is_system ms
unfolding without_oldest
select-without_oldest zero ms = refl
select-without_oldest (suc k) [] = refl
select-without_oldest (suc k) (m ∷ ms) =
    ground (arith, select-without_oldest (suc k) ms, select-without_oldest k ms)

system_alone : (ms : List Message) → others ms ≡ [] → ms ≡ select is_system ms
system_alone [] h = refl
system_alone (m ∷ ms) h = ground (arith, system_alone ms)

-- A counter that adds up the tokens of each message.
abbrev summing : (Bytes → ℕ) → Counter
summing count ms = some (sum_messages count ms + 3)

within :
    (count : Bytes → ℕ) (budget : ℕ) (ms : List Message)
    → fits (summing count) budget ms ≡ true
    → sum_messages count ms + 3 ≤ budget
within count budget ms h = leb→le (sum_messages count ms + 3) budget h

Trimmed-within :
    (count : Bytes → ℕ) (budget k : ℕ) (ms out : List Message)
    → sum_messages count (select is_system ms) + 3 ≤ budget
    → IsTrimmed (summing count) budget k ms out
    → sum_messages count out + 3 ≤ budget
Trimmed-within count budget k ms out room t = elim t.done [
  | inl e ↦ within count budget out e
  | inr e ↦
      let alone : out ≡ select is_system ms =
        system_alone out e ∙ ap (select is_system) t.left ∙ select-without_oldest k ms in
      subst (λ (r : List Message). sum_messages count r + 3 ≤ budget) (sym alone) room
]

abbrev pub Within : (Bytes → ℕ) → ℕ → List Message → Option (List Message) → Type 0
Within count budget ms result =
    (out : List Message) × (result ≡ some out)
    × (sum_messages count out + 3 ≤ budget)
    × (select is_system out ≡ select is_system ms)

Trimmed-Within :
    (count : Bytes → ℕ) (budget : ℕ) (ms : List Message) (result : Option (List Message))
    → sum_messages count (select is_system ms) + 3 ≤ budget
    → Trimmed (summing count) budget ms result
    → Within count budget ms result
Trimmed-Within count budget ms result room (out, e, k, t) = (
  out,
  e,
  Trimmed-within count budget k ms out room t,
  ap (select is_system) t.left ∙ select-without_oldest k ms,
)

-- A conversation whose messages of the system are within a budget by themselves, by the count of the
-- heuristic, is within it after `TrimToBudget`, and still has all messages of the system.
pub heuristic-Within :
    (ms : List Message) (budget : ℕ)
    → sum_messages heuristic_count (select is_system ms) + 3 ≤ budget
    → Within heuristic_count budget ms
        (trim_to_budget (record { messages = ms; counter = heuristic_messages }) budget)
unfolding heuristic_messages
heuristic-Within ms budget room =
    Trimmed-Within heuristic_count budget ms _ room
      (trim_to_budget-Trimmed (record { messages = ms; counter = heuristic_messages }) budget)
