-- ===== src/Llm/History.antt =====
-- internal/llm/history.go: a conversation that is cut down to a number of tokens.
pub mod Trim
use prowiki.Base.{
  ℕ, zero, suc, Bool, true, false, String, str_eq, List, [], ◌∷◌, ◌++◌, length, leb, if◌then◌else◌,
  Option, none, some, Bytes,
}
use prowiki.Llm.Request.{Message}

-- `Counter.CountMessages`; `none` is an error, of which the callers only test that there is one.
abbrev pub Counter : Type 0
Counter = List Message → Option ℕ

pub record History : Type 0 where
  pub messages : List Message
  pub counter : Counter

abbrev pub new_history : Counter → History
new_history counter = record { messages = []; counter = counter }

-- `Append`
abbrev pub append : History → String → Bytes → History
append h role content = record h {
  messages = h.messages ++ (record { role = role; content = content } ∷ []);
}

abbrev pub is_system : Message → Bool
is_system m = str_eq m.role "system"

-- The search for the first message that is not of the system, and its removal; `none` if there is
-- no such message.
unfoldable pub remove_first : List Message → Option (List Message)
remove_first [] = none
remove_first (m ∷ ms) =
    if is_system m
    then elim (remove_first ms) [ none ↦ none | some rest ↦ some (m ∷ rest) ]
    else some ms

-- `err != nil || tokens <= maxTokens`
abbrev is_enough : Option ℕ → ℕ → Bool
is_enough none budget = true
is_enough (some tokens) budget = leb tokens budget

abbrev pub fits : Counter → ℕ → List Message → Bool
fits counter budget ms = is_enough (counter ms) budget

-- The loop of `TrimToBudget`; `none` where the rounds are used up.
unfoldable pub trim : ℕ → Counter → ℕ → List Message → Option (List Message)
unfolding remove_first
trim zero counter budget ms = none
trim (suc rounds) counter budget ms = elim (fits counter budget ms) [
  | true ↦ some ms
  | false ↦ elim (remove_first ms) [ none ↦ some ms | some rest ↦ trim rounds counter budget rest ]
]

-- `TrimToBudget`: a round more than there are messages.
unfoldable pub trim_to_budget : History → ℕ → Option (List Message)
unfolding trim
trim_to_budget h budget = trim (suc (length h.messages)) h.counter budget h.messages
