-- ===== src/Tests/Llm.antt =====
-- The theorems on conversations, limits and retries, on concrete models.
use prowiki.Base.{
  ℕ, zero, suc, ◌+◌, ◌*◌, ◌/◌, ◌≤◌, ◌<◌, ◌≡◌, refl, ap, true, false, List, [], ◌∷◌, ◌++◌, length,
  leb, Bytes, codes, if◌then◌else◌, none, some, ◌⊎◌, arith,
}
use prowiki.Domain.Errors.{Error, Result, ok, err}
use prowiki.Llm.Request.{Message, Completer}
use prowiki.Llm.History.{trim_to_budget}
use prowiki.Llm.History.Trim.{Trimmed, trim_to_budget-Trimmed}
use prowiki.Llm.Discovery.{replicate, dummy_payload, discover_boundary}
use prowiki.Llm.Discovery.Limit.{Limited, discover_boundary_lem}
use prowiki.Llm.Client.{attempts, max_retries}
use prowiki.Llm.Client.Retry.{Tried, attempts_lem}
use prowiki.Llm.Schema.{repair_markdown_fences}
use prowiki.Llm.Schema.Repair.{repair_markdown_fences_lem}
use prowiki.Tokenizer.{heuristic_messages, heuristic_count}
use prowiki.Tokenizer.Budget.{Within, heuristic-Within}

abbrev conversation : List Message
conversation =
    record { role = "system"; content = codes "Be brief." }
    ∷ record { role = "user"; content = codes "What does this file do?" }
    ∷ record { role = "user"; content = codes "And that one?" }
    ∷ []

trim_to_budget-Trimmed_example :
    Trimmed heuristic_messages 18 conversation
      (trim_to_budget (record { messages = conversation; counter = heuristic_messages }) 18)
trim_to_budget-Trimmed_example =
    trim_to_budget-Trimmed (record { messages = conversation; counter = heuristic_messages }) 18

heuristic-Within_example :
    Within heuristic_count 18 conversation
      (trim_to_budget (record { messages = conversation; counter = heuristic_messages }) 18)
unfolding prowiki.Tokenizer.sum_messages
heuristic-Within_example = heuristic-Within conversation 18 (omega arith)

content_length : List Message → ℕ
content_length [] = 0
content_length (m ∷ ms) = length m.content

-- A model that takes 600000 tokens, of four bytes each.
abbrev model_600000 : Completer
model_600000 calls req =
    if leb (content_length req.messages) 2400000
    then ok (codes "ok")
    else err Error.context_overflow

length-replicate : (n byte : ℕ) → length (replicate n byte) ≡ n
length-replicate zero byte = refl
length-replicate (suc n) byte = ap suc (length-replicate n byte)

length-dummy_payload : (tokens : ℕ) → length (dummy_payload tokens) ≡ tokens * 4
unfolding dummy_payload
length-dummy_payload tokens = length-replicate (tokens * 4) 97

model_600000-Limited : Limited "m" model_600000 600000
unfolding content_length
model_600000-Limited calls tokens = (
  λ low.
      let size = length-dummy_payload tokens in
      let taken : leb (length (dummy_payload tokens)) 2400000 ≡ true = ground arith in
      (codes "ok", ground (arith, taken)),
  λ high.
      let size = length-dummy_payload tokens in
      let refused : leb (length (dummy_payload tokens)) 2400000 ≡ false = ground arith in
      ground (arith, refused),
)

discover_boundary_lem_example :
    (600000 < 515625
      → discover_boundary "m" model_600000
        ≡ some (err (Error.message "could not find a safe token threshold")))
    × (515625 ≤ 600000
        → (t : ℕ) × (discover_boundary "m" model_600000 ≡ some (ok (t * 9 / 10)))
          × (t ≤ 600000)
          × ((600000 < t + 15625) ⊎ (t ≡ 1484375)))
discover_boundary_lem_example = discover_boundary_lem "m" model_600000 600000 model_600000-Limited

-- A service that is busy twice and then answers.
abbrev busy_twice : ℕ → Result Bytes
busy_twice n = if leb 2 n then ok (codes "ok") else err (Error.foreign "503 busy")

attempts_lem_example :
    Tried busy_twice (λ n. none) max_retries 0 (attempts busy_twice (λ n. none) max_retries 0)
    × ((attempts busy_twice (λ n. none) max_retries 0).calls ≤ 4)
attempts_lem_example = attempts_lem busy_twice (λ n. none)

repair_markdown_fences_lem_example :
    repair_markdown_fences (codes "ok: " ++ b'{' ∷ (codes "1" ++ b'}' ∷ codes "\n"))
    ≡ b'{' ∷ (codes "1" ++ b'}' ∷ [])
repair_markdown_fences_lem_example =
    repair_markdown_fences_lem (codes "ok: ") (codes "1") (codes "\n") b'{' b'}'
      (refl, (refl, (refl, (refl, tt)))) refl refl (refl, tt)
