-- ===== src/Enrichment/Sanitizer/Checks.antt =====
-- The checks of crates/enrichment-engine/src/sanitizer.rs at a position of a command. The positions that
-- a check gives are relative to its start.
use bastion.Base.{
  ℕ, ◌+◌, ◌-◌, Bool, false, not, ◌&&◌, ◌||◌, Option, none, some, List, [], ◌∷◌, any, all, ltb, leb,
  nat_eq, if◌then◌else◌, Text, text_eq, ◌==◌, codes, length, take, drop, filter,
}
use bastion.Base.Chars.{starts_with, is_ascii_digit, is_ascii_letter, is_in}
use bastion.Enrichment.Sanitizer.Scan.{
  run, is_quote, ends_key, ends_value, ends_variable, is_blank, past_quote,
}

-- Where the value of an assignment ends, from its first byte on: at a delimiter, and where that is a
-- quote, past the text that it opens.
unfoldable pub assignment_end : Text → ℕ
unfolding run
assignment_end value =
    let plain = run (λ b. not (ends_value b)) value in
    elim (drop plain value) [
      | [] ↦ plain
      | quote ∷ s ↦
          if is_quote quote then plain + past_quote (run (λ b. not (nat_eq b quote)) s) s else plain
    ]

-- The patterns in their order, each with the length of its key.
unfoldable pub find_assignment : List Text → Text → Option (ℕ × ℕ × ℕ)
find_assignment [] s = none
find_assignment (pattern_bytes ∷ patterns) s =
    let rest = find_assignment patterns s in
    let value_start = length pattern_bytes in
    if starts_with s pattern_bytes
    then some (value_start - 1, value_start, value_start + assignment_end (drop value_start s))
    else rest

abbrev pub assignment_patterns : List Text
assignment_patterns = codes "token=" ∷ codes "password=" ∷ codes "api_key=" ∷ []

unfoldable pub check_assignment_pattern : Text → Option (ℕ × ℕ × ℕ)
unfolding find_assignment assignment_end starts_with
check_assignment_pattern s = find_assignment assignment_patterns s

abbrev pub bearer : Text
bearer = codes "Bearer "

unfoldable pub check_bearer_pattern : Text → Option ℕ
unfolding starts_with
check_bearer_pattern s = if starts_with s bearer then some 7 else none

unfoldable pub check_aws_key_pattern : Text → Option (ℕ × ℕ)
unfolding run starts_with
check_aws_key_pattern s =
    let end = 4 + run (λ b. not (ends_key b)) (drop 4 s) in
    if starts_with s (codes "AKIA") && leb 8 end then some (0, end) else none

abbrev is_alphanumeric : ℕ → Bool
is_alphanumeric b = is_ascii_digit b || is_ascii_letter b

-- The first prefix that fits decides.
unfoldable pub find_github : List Text → Text → Option (ℕ × ℕ)
find_github [] s = none
find_github (prefix ∷ prefixes) s =
    let rest = find_github prefixes s in
    let count = run (λ b. not (ends_value b) && is_alphanumeric b) (drop (length prefix) s) in
    if starts_with s prefix
    then (if leb 8 count then some (0, length prefix + count) else none)
    else rest

unfoldable pub check_github_token : Text → Option (ℕ × ℕ)
unfolding find_github run starts_with is_ascii_digit is_ascii_letter
check_github_token s =
    find_github (codes "ghp_" ∷ codes "gho_" ∷ codes "ght_" ∷ codes "ghs_" ∷ []) s

unfoldable pub check_openai_long_prefix : Text → Text → ℕ → Option (ℕ × ℕ)
unfolding run starts_with
check_openai_long_prefix s prefix min_chars =
    let count = run (λ b. not (ends_value b)) (drop (length prefix) s) in
    if starts_with s prefix && leb min_chars count then some (0, length prefix + count) else none

abbrev pub or_else : Option (ℕ × ℕ) → Option (ℕ × ℕ) → Option (ℕ × ℕ)
or_else none other = other
or_else (some found) other = some found

unfoldable pub check_openai_key : Text → Option (ℕ × ℕ)
unfolding check_openai_long_prefix
check_openai_key s = or_else (check_openai_long_prefix s (codes "sk-proj-") 16) (
    or_else (check_openai_long_prefix s (codes "sk-svcacct-") 16) (
      or_else (check_openai_long_prefix s (codes "sk-admin-") 16)
        (check_openai_long_prefix s (codes "sk-") 48)))

unfoldable pub check_cli_secret_flag : Text → Option ℕ
unfolding run starts_with
check_cli_secret_flag s =
    let pos = run (λ b. nat_eq b b' ' || nat_eq b b'\t') s in
    let flag = drop pos s in
    if starts_with flag (codes "--secret ")
    then some (pos + 9)
    else if starts_with flag (codes "--api-key ")
    then some (pos + 10)
    else none

unfoldable pub check_jwt_prefix : Text → Option (ℕ × ℕ)
unfolding run starts_with
check_jwt_prefix s =
    let body = drop 3 s in
    let more = run (λ b. not (is_blank b)) body in
    let token_len = 3 + more in
    let dot_count = length (filter (λ b. nat_eq b b'.') (take more body)) in
    if starts_with s (codes "eyJ") && leb 2 dot_count && (leb 50 token_len && leb token_len 1200)
    then some (0, token_len)
    else none

abbrev is_upper : ℕ → Bool
is_upper b = is_in b'A' b'Z' b

-- The key of an upper-case variable: letters, underscores, and digits but for its first byte.
abbrev is_variable : Text → Bool
is_variable [] = false
is_variable (b ∷ s) =
    (is_upper b || nat_eq b b'_') && all (λ d. is_upper d || nat_eq d b'_' || is_ascii_digit d) s

-- The position of the next `=`; `none` where there is none or it comes first.
unfoldable pub key_length : Text → Option ℕ
unfolding run
key_length s =
    let eq_pos = run (λ b. not (nat_eq b b'=')) s in
    if nat_eq eq_pos 0 then none else if ltb eq_pos (length s) then some eq_pos else none

unfoldable pub check_snake_key_pattern : Text → Option (ℕ × ℕ × ℕ)
unfolding key_length run is_ascii_digit
check_snake_key_pattern s = elim (key_length s) [
  | none ↦ none
  | some eq_pos ↦
      let key_bytes = take eq_pos s in
      let value_start = eq_pos + 1 in
      if leb eq_pos 64 && is_variable key_bytes && (any is_upper key_bytes && leb 3 eq_pos)
      then some
          (eq_pos, value_start, value_start + run (λ b. not (ends_variable b)) (drop value_start s))
      else none
]

abbrev is_lower_key : ℕ → Bool
is_lower_key b = is_in b'a' b'z' b || is_ascii_digit b || nat_eq b b'_'

-- The key ends with the suffix.
abbrev has_suffix : Text → Text → Bool
has_suffix key suffix =
    leb (length suffix) (length key) && drop (length key - length suffix) key == suffix

abbrev pub secret_suffixes : List Text
secret_suffixes = codes "_key" ∷ codes "_token" ∷ codes "_secret" ∷ codes "_password" ∷ []

-- Where a value ends that may be quoted as a whole.
quoted_end : Text → ℕ
unfolding run
quoted_end [] = 0
quoted_end (b ∷ s) =
    if is_quote b
    then past_quote (run (λ c. not (nat_eq c b)) s) s
    else run (λ c. not (ends_value c)) (b ∷ s)

unfoldable pub check_lowercase_secret_suffix : Text → Option (ℕ × ℕ × ℕ)
unfolding key_length quoted_end is_ascii_digit
check_lowercase_secret_suffix s = elim (key_length s) [
  | none ↦ none
  | some eq_pos ↦
      let key_bytes = take eq_pos s in
      let value_start = eq_pos + 1 in
      if leb 3 eq_pos && all is_lower_key key_bytes && any (has_suffix key_bytes) secret_suffixes
      then some (eq_pos, value_start, value_start + quoted_end (drop value_start s))
      else none
]
