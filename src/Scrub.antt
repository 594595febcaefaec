-- ===== src/Scrub.antt =====
-- internal/scrub/scrubber.go: secrets are cut out of a text before a model sees it.
pub mod Engine
pub mod Redacts
pub mod Clean
pub mod Hits
use prowiki.Base.{
  ℕ, ◌+◌, ◌-◌, Bool, ◌&&◌, ◌||◌, not, List, [], ◌∷◌, ◌++◌, ◌==◌, length, take, drop, if◌then◌else◌,
  Option, none, some, Bytes, codes, leb,
}
use prowiki.Domain.Language.{Language}
use prowiki.Scrub.Engine.{
  Class, Regex, nothing, one, greedy, lazy, seq, alt, match_at, rest_after, replace_all, count_all,
  is, any_of, between, fixed, literal, times, some_of, optional,
}

abbrev pub upper : Class
upper = between 65 90

abbrev pub lower : Class
lower = between 97 122

abbrev pub digit : Class
digit = between 48 57

abbrev pub alphanumeric : Class
alphanumeric x = upper x || (lower x || digit x)

-- `\s`
abbrev pub space : Class
space = any_of (9 ∷ 10 ∷ 12 ∷ 13 ∷ 32 ∷ [])

-- `AKIA[0-9A-Z]{16}`
abbrev pub aws_key : List Class
aws_key = literal (codes "AKIA") ++ times 16 (λ x. digit x || upper x)

-- `Bearer\s+[a-zA-Z0-9\-\._~+/]+=*`
abbrev pub bearer : Regex
bearer = seq (fixed (literal (codes "Bearer"))) (
    seq (some_of space)
      (seq (some_of (λ x. alphanumeric x || any_of (codes "-._~+/") x)) (greedy (is b'='))))

-- A letter in either case; the long s and the sign of Kelvin fold to s and k.
abbrev folded : ℕ → Class
folded c x =
    x == c || ((x == c - 32) || (((c == 115) && (x == 383)) || ((c == 107) && (x == 8490))))

abbrev word : Bytes → Regex
word [] = nothing
word (c ∷ cs) = seq (one (if lower c then folded c else is c)) (word cs)

-- `["\s:=]`
abbrev separator : Class
separator x = x == 34 || (space x || any_of (codes ":=") x)

-- `(?i)(password|secret|token)["\s:=]+[^\s",}]+`
abbrev pub password : Regex
password =
    seq (alt (word (codes "password")) (alt (word (codes "secret")) (word (codes "token"))))
      (seq (some_of separator) (some_of (λ x. not (space x || (x == 34 || any_of (codes ",}") x)))))

abbrev base64url : Class
base64url x = alphanumeric x || any_of (codes "-_") x

-- `eyJ[A-Za-z0-9\-_]+\.[A-Za-z0-9\-_]+\.[A-Za-z0-9\-_]*`
abbrev pub jwt : Regex
jwt = seq (fixed (literal (codes "eyJ"))) (
    seq (some_of base64url)
      (seq (one (is b'.')) (seq (some_of base64url) (seq (one (is b'.')) (greedy base64url)))))

abbrev text : Bytes → Regex
text s = fixed (literal s)

-- `(?s)-----BEGIN (?:RSA |EC |OPENSSH )?PRIVATE KEY-----.*?-----END[^\n]*PRIVATE KEY-----`
abbrev pub private_key : Regex
private_key = seq (text (codes "-----BEGIN ")) (
    seq (optional (alt (text (codes "RSA ")) (alt (text (codes "EC ")) (text (codes "OPENSSH ")))))
      (seq (text (codes "PRIVATE KEY-----")) (
        seq (lazy (λ x. leb 0 x)) (
          seq (text (codes "-----END"))
            (seq (greedy (λ x. not (x == 10))) (text (codes "PRIVATE KEY-----")))))))

-- `gh[pousr]_[A-Za-z0-9]{36}`
abbrev pub github_token : List Class
github_token = literal (codes "gh") ++ (any_of (codes "pousr") ∷ (is b'_' ∷ times 36 alphanumeric))

abbrev pub rules : List Regex
rules = fixed aws_key ∷ bearer ∷ password ∷ jwt ∷ private_key ∷ fixed github_token ∷ []

abbrev hexadecimal : Class
hexadecimal x = digit x || (between 97 102 x || between 65 70 x)

abbrev pub quote : Regex
quote = optional (one (any_of (34 ∷ 39 ∷ [])))

-- `(?i)(?:password|secret|key|token|api_key)["\s:=]+["']?([0-9a-fA-F]{32,})["']?`, in its parts before,
-- within and behind the group.
abbrev pub kv_before : Regex
kv_before =
    seq
      (alt (word (codes "password")) (
        alt (word (codes "secret"))
          (alt (word (codes "key")) (alt (word (codes "token")) (word (codes "api_key"))))))
      (seq (some_of separator) quote)

abbrev pub kv_group : Regex
kv_group = seq (fixed (times 32 hexadecimal)) (greedy hexadecimal)

abbrev pub kv_rule : Regex
kv_rule = seq kv_before (seq kv_group quote)

abbrev pub marker : Bytes
marker = codes "[REDACTED_SECRET]"

-- What is left from the start of the group, and from its end, in a match at the start.
abbrev pub group_rests : Bytes → Option (Bytes × Bytes)
group_rests s =
    match_at kv_before
      (λ from. match_at kv_group (λ to. match_at quote (λ rest. some (from, to)) to) from) s

abbrev pub cut_group : Bytes → Option (Bytes × Bytes) → Bytes
cut_group m none = m
cut_group m (some (from, to)) =
    take (length m - length from) m ++ (marker ++ drop (length m - length to) m)

-- The function that `ReplaceAllStringFunc` is given.
unfoldable pub cut_value : Bytes → Bytes
unfolding match_at
cut_value m = cut_group m (group_rests m)

-- The loop over the rules: the text and the hits so far.
unfoldable pub scrub_rules : List Regex → Bytes × ℕ → Bytes × ℕ
unfolding replace_all count_all
scrub_rules [] r = r
scrub_rules (rule ∷ rest) (s, hits) =
    scrub_rules rest (replace_all rule (λ m. marker) 0 s, hits + count_all rule 0 s)

abbrev pub scrub_values : Bytes × ℕ → Bytes × ℕ
scrub_values (s, hits) =
    let n = count_all kv_rule 0 s in
    if n == 0 then (s, hits) else (replace_all kv_rule cut_value 0 s, hits + n)

-- `Scrub`
unfoldable pub scrub : Bytes → Language → Bytes × ℕ
unfolding scrub_rules replace_all count_all cut_value
scrub content lang = scrub_values (scrub_rules rules (content, 0))
