-- ===== src/Sanitization.antt =====
-- app/core/sanitization.py: `sanitize_text`, which cuts a text and hides secrets in it. Text is ASCII here, as
-- in the policy's rules.
use ai_game.Base.{
  ℕ, zero, suc, ◌+◌, ◌-◌, Bool, not, ◌&&◌, ◌||◌, Option, none, some, List, [], ◌∷◌, ◌++◌, map, ◌==◌,
  leb, take, length, if◌then◌else◌, Text, codes,
}
use ai_game.Actions.Rules.{is_space, lower_code, between, starts_with}

-- A pattern at the front of a text: how many characters it matches there, and what replaces them.
abbrev Pattern : Type 0
Pattern = Text → Option (ℕ × Text)

abbrev drop : ℕ → Text → Text
drop zero t = t
drop (suc n) [] = []
drop (suc n) (c ∷ t) = drop n t

-- How many characters of a class stand at the front.
abbrev span : (ℕ → Bool) → Text → ℕ
span p [] = 0
span p (c ∷ t) = let rest = span p t in if p c then suc rest else 0

-- A literal in lower case at the front, under `re.IGNORECASE`.
abbrev starts_with_word : Text → Text → Bool
starts_with_word word t = starts_with word (map lower_code t)

abbrev redacted : Text
redacted = codes "[REDACTED]"

abbrev is_at : ℕ → Bool
is_at c = c == b'@'

-- `(postgresql\+asyncpg://)[^@\s]+@`. What stands before the `@` can match in one way only.
unfoldable password_in_url : Pattern
unfolding is_space lower_code
password_in_url t =
    let word = codes "postgresql+asyncpg://" in
    let k = length word in
    let n = span (λ c. not (is_at c || is_space c)) (drop k t) in
    if starts_with_word word t && (leb 1 n && starts_with (codes "@") (drop (k + n) t))
    then some (k + n + 1, take k t ++ redacted ++ codes "@")
    else none

-- `[=:]\s*\S+`: how many characters it matches, or 0.
abbrev value_length : Text → ℕ
value_length [] = 0
value_length (c ∷ t) =
    let spaces = span is_space t in
    let n = span (λ d. not (is_space d)) (drop spaces t) in
    if ((c == b'=') || c == b':') && leb 1 n then 1 + spaces + n else 0

abbrev secret_of : List Text → Pattern
secret_of [] t = none
secret_of (word ∷ words) t =
    let others = secret_of words t in
    let k = length word + span is_space (drop (length word) t) in
    let n = value_length (drop k t) in
    if starts_with_word word t && leb 1 n
    then some (k + n, take (length word) t ++ codes "=" ++ redacted)
    else others

-- `(api[_-]?key|authorization|password|secret|token)\s*[=:]\s*\S+`. None of the words begins another.
unfoldable named_secret : Pattern
unfolding is_space lower_code
named_secret = secret_of (
    codes "api_key"
    ∷ codes "api-key"
    ∷ codes "apikey"
    ∷ codes "authorization"
    ∷ codes "password"
    ∷ codes "secret"
    ∷ codes "token"
    ∷ [])

abbrev is_token_char : ℕ → Bool
is_token_char c =
    between b'A' b'Z' c
    || (between b'a' b'z' c || (between b'0' b'9' c || ((c == b'.') || ((c == b'_') || c == b'-'))))

-- `Bearer\s+[A-Za-z0-9._-]+`
unfoldable bearer_token : Pattern
unfolding is_space lower_code between
bearer_token t =
    let spaces = span is_space (drop 6 t) in
    let n = span is_token_char (drop (6 + spaces) t) in
    if starts_with_word (codes "bearer") t && (leb 1 spaces && leb 1 n)
    then some (6 + spaces + n, codes "Bearer " ++ redacted)
    else none

-- `pattern.sub`: the leftmost match is replaced, and the search goes on behind it. The number counts the
-- characters of a match that are left to skip.
abbrev sub_from : Pattern → ℕ → Text → Text
sub_from p skip [] = []
sub_from p (suc skip) (c ∷ t) = sub_from p skip t
sub_from p zero (c ∷ t) = elim (p (c ∷ t)) [
  | none ↦ c ∷ sub_from p zero t
  | some (n, replacement) ↦ replacement ++ sub_from p (n - 1) t
]

abbrev sub : Pattern → Text → Text
sub p = sub_from p zero

unfoldable pub sanitize_text : Text → (max_characters : ℕ) → Text
unfolding password_in_url named_secret bearer_token
sanitize_text value max_characters =
    sub bearer_token (sub named_secret (sub password_in_url (take max_characters value)))
