-- ===== src/Llm/Client.antt =====
-- internal/llm/client.go with internal/llm/provider.go: requests to a model with retries. The library
-- go-litellm is a parameter; its errors are texts.
pub mod Retry
use Prim.Native.String.{◌++◌}
use prowiki.Base.{
  ℕ, zero, suc, ◌+◌, Bool, true, false, ◌&&◌, ◌||◌, String, str_eq, codes, List, [], ◌∷◌, ◌==◌,
  if◌then◌else◌, Option, none, some, Bytes, has_prefix, contains,
}
use prowiki.Domain.Errors.{
  Error, Result, ok, err, panicked, error_text, is_auth_rotation, is_context_overflow,
}
use prowiki.Llm.Request.{Message, CompletionRequest}

-- `EnvKeyProvider.APIKey`, of the variable's name and its value, which is empty if it is not set.
abbrev pub api_key : String → String → Result String
api_key env_var value =
    if str_eq value ""
    then err (Error.message ("api key not found in env var " ++ env_var))
    else ok value

abbrev pub new_env_var : String → String
new_env_var env_var = if str_eq env_var "" then "LITELLM_API_KEY" else env_var

abbrev pub says : String → Error → Bool
says s e = contains (codes s) (codes (error_text e))

unfoldable pub is_auth_text : Error → Bool
unfolding contains error_text
is_auth_text e = says "401" e || (says "unauthorized" e || says "AuthError" e)

unfoldable pub is_overflow_text : Error → Bool
unfolding contains error_text
is_overflow_text e =
    says "413" e
    || (says "context length exceeded" e
        || (says "too many tokens" e || says "ContextWindowExceeded" e))

-- `mapError`
unfoldable pub map_error : Error → Error
unfolding is_auth_text is_overflow_text
map_error e =
    if is_auth_text e
    then Error.auth_rotation
    else if is_overflow_text e
    then Error.context_overflow
    else e

abbrev is_known_role : String → Bool
is_known_role role = str_eq role "system" || (str_eq role "user" || str_eq role "assistant")

-- The loop that converts the messages: one of another role is left out.
unfoldable pub converted : List Message → List Message
converted [] = []
converted (m ∷ ms) = let rest = converted ms in if is_known_role m.role then m ∷ rest else rest

-- The library's client for a key: `completion n req` is the answer to the n-th call.
pub record Litellm : Type 0 where
  pub new_client : String → Result (Unit {0})
  pub model : String → Result (Unit {0})
  pub completion : ℕ → List Message → Result Bytes

abbrev pub is_final : Error → Bool
is_final e = is_auth_rotation e || is_context_overflow e

abbrev pub max_retries : ℕ
max_retries = 3

-- What a loop returned, and how many calls it had made in all.
pub record Outcome : Type 0 where
  pub result : Result Bytes
  pub calls : ℕ

-- Where the attempt is the last, it ends the loop.
abbrev last_attempt : Result Bytes → ℕ → Outcome
last_attempt (ok text) n = record { result = ok text; calls = suc n }
last_attempt (err e) n = record { result = err (map_error e); calls = suc n }
last_attempt (panicked p) n = record { result = panicked p; calls = suc n }

-- The loop over the attempts, of the retries that are left and the number of the attempt; `cancelled n`
-- is the error of the context, if it ends while the loop waits after the attempt `n`.
unfoldable pub attempts : (ℕ → Result Bytes) → (ℕ → Option Error) → ℕ → ℕ → Outcome
unfolding map_error
attempts call cancelled zero n = last_attempt (call n) n
attempts call cancelled (suc left) n = elim (call n) [
  | ok text ↦ record { result = ok text; calls = suc n }
  | panicked p ↦ record { result = panicked p; calls = suc n }
  | err e ↦ elim (is_final (map_error e)) [
    | true ↦ record { result = err (map_error e); calls = suc n }
    | false ↦ elim (cancelled n) [
      | some stopped ↦ record { result = err stopped; calls = suc n }
      | none ↦ attempts call cancelled left (suc n)
    ]
  ]
]

abbrev pub failed : Error → Outcome
failed e = record { result = err e; calls = 0 }

-- `fmt.Errorf("…: %w", err)` where a value is wanted, and the rest of the function otherwise.
abbrev pub checked : {A : Type 0} → String → Result A → (A → Outcome) → Outcome
checked s (ok a) rest = rest a
checked s (err e) rest = failed (Error.wrapped s e)
checked s (panicked p) rest = record { result = panicked p; calls = 0 }

-- `Complete`, of the key that the provider gives and of the parsed base URL: an URL that does not parse
-- is a panic.
unfoldable pub complete :
    Litellm → (ℕ → Option Error) → Result String → Option String → CompletionRequest → Outcome
unfolding attempts converted
complete library cancelled key url_panic req = checked "failed to get api key" key (λ k.
    elim url_panic [
      | some p ↦ record { result = panicked p; calls = 0 }
      | none ↦ checked "failed to create litellm client" (library.new_client k) (λ client.
          checked ("failed to get model " ++ req.model) (library.model req.model) (λ meta.
            attempts (λ n. library.completion n (converted req.messages)) cancelled max_retries 0))
    ])
