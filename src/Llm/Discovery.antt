-- ===== src/Llm/Discovery.antt =====
-- internal/llm/discovery.go: the search for the number of tokens that a model takes.
pub mod Limit
use prowiki.Base.{
  ℕ, zero, suc, ◌+◌, ◌-◌, ◌*◌, ◌/◌, Bool, true, false, String, List, [], ◌∷◌, leb, ltb, ◌==◌,
  if◌then◌else◌, Option, none, some, Bytes,
}
use prowiki.Domain.Errors.{Error, Result, ok, err, panicked, is_context_overflow}
use prowiki.Llm.Request.{Message, CompletionRequest, Completer}

abbrev pub replicate : ℕ → ℕ → Bytes
replicate zero byte = []
replicate (suc n) byte = byte ∷ replicate n byte

-- `generateDummyPayload`: four times the byte `a` for a token.
unfoldable pub dummy_payload : ℕ → Bytes
dummy_payload tokens = replicate (tokens * 4) 97

abbrev pub probe : String → ℕ → CompletionRequest
probe model tokens = record {
  model = model;
  messages = record { role = "user"; content = dummy_payload tokens } ∷ [];
  max_tokens = 10;
  response_format = none;
}

-- `currentT`, `step` and `convergedThreshold`.
pub record Search : Type 0 where
  pub current : ℕ
  pub step : ℕ
  pub threshold : ℕ

abbrev pub start : Search
start = record { current = 1000000; step = 250000; threshold = 0 }

abbrev pub epsilon : ℕ
epsilon = 5000

abbrev pub smaller : Search → Search
smaller s = record { current = s.current - s.step; step = s.step / 2; threshold = s.threshold }

abbrev pub larger : Search → Search
larger s = record { current = s.current + s.step; step = s.step / 2; threshold = s.current }

-- One round of the loop, of the answer to its request.
abbrev pub answered : Search → Result Bytes → Result Search
answered s (ok text) = ok (larger s)
answered s (err e) =
    if is_context_overflow e
    then ok (smaller s)
    else err (Error.wrapped "unexpected error during discovery" e)
answered s (panicked p) = panicked p

-- The loop, of the number of calls made before; `none` where the rounds are used up.
unfoldable pub search : ℕ → String → Completer → ℕ → Search → Option (Result ℕ)
search zero model completer calls s = none
search (suc rounds) model completer calls s = elim (ltb epsilon s.step) [
  | false ↦ some (ok s.threshold)
  | true ↦ elim (answered s (completer calls (probe model s.current))) [
    | ok s' ↦ search rounds model completer (suc calls) s'
    | err e ↦ some (err e)
    | panicked p ↦ some (panicked p)
  ]
]

-- The end of `DiscoverBoundary`. The threshold is a multiple of 15625 below 1500000, for which the
-- product with 0.9 in floating point is rounded down as the quotient is.
abbrev pub concluded : Result ℕ → Result ℕ
concluded (ok threshold) =
    if threshold == 0
    then err (Error.message "could not find a safe token threshold")
    else ok (threshold * 9 / 10)
concluded (err e) = err e
concluded (panicked p) = panicked p

-- `DiscoverBoundary`; the step is at most 5000 after six halvings.
unfoldable pub discover_boundary : String → Completer → Option (Result ℕ)
unfolding search
discover_boundary model completer = elim (search 7 model completer 0 start) [
  | none ↦ none
  | some r ↦ some (concluded r)
]
