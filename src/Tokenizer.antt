-- ===== src/Tokenizer.antt =====
-- internal/tokenizer: counting the tokens of a conversation.
pub mod Budget
use prowiki.Base.{ℕ, ◌+◌, ◌/◌, List, [], ◌∷◌, length, Option, none, some, Bytes}
use prowiki.Llm.Request.{Message}
use prowiki.Llm.History.{Counter}

-- `HeuristicCounter.Count`
abbrev pub heuristic_count : Bytes → ℕ
heuristic_count text = length text / 4

-- The loop over the messages, with the tokens of a text.
unfoldable pub sum_messages : (Bytes → ℕ) → List Message → ℕ
sum_messages count [] = 0
sum_messages count (m ∷ ms) = count m.content + 4 + sum_messages count ms

-- `HeuristicCounter.CountMessages`
unfoldable pub heuristic_messages : Counter
unfolding sum_messages
heuristic_messages ms = some (sum_messages heuristic_count ms + 3)

-- `TikTokenCounter.Count`, of the encoding of the library.
abbrev pub bpe_count : (Bytes → List ℕ) → Bytes → ℕ
bpe_count encode text = length (encode text)

-- `TikTokenCounter.CountMessages`
unfoldable pub bpe_messages : (Bytes → List ℕ) → Counter
unfolding sum_messages
bpe_messages encode ms = some (sum_messages (bpe_count encode) ms + 3)

-- The functions of a `FakeCounter`, if they are set.
pub record FakeCounter : Type 0 where
  pub count_func : Option (Bytes → Option ℕ)
  pub count_messages_func : Option (List Message → ℕ)

abbrev called : Option (Bytes → Option ℕ) → Bytes → Option ℕ
called none text = some 0
called (some f) text = f text

abbrev called_messages : Option (List Message → ℕ) → Counter
called_messages none ms = some 0
called_messages (some f) ms = some (f ms)

-- `FakeCounter.Count`
abbrev fake_count : FakeCounter → Bytes → Option ℕ
fake_count c = called c.count_func

-- `FakeCounter.CountMessages`
abbrev fake_messages : FakeCounter → Counter
fake_messages c = called_messages c.count_messages_func
