-- ===== src/Enrichment/Sanitizer.antt =====
-- The redaction of secrets in stored commands, crates/enrichment-engine/src/sanitizer.rs. A command is
-- the list of its bytes in UTF-8.
mod Scan
mod Checks
pub mod Laws
mod Tests
use bastion.Base.{
  ℕ, zero, suc, ◌+◌, Bool, true, false, not, ◌&&◌, ◌||◌, Option, none, some, [], ◌∷◌, ◌++◌, ltb,
  nat_eq, if◌then◌else◌, Text, codes, take, drop, length,
}
use bastion.Enrichment.Sanitizer.Scan.{run, is_ascii_whitespace}
use bastion.Enrichment.Sanitizer.Checks.{
  check_assignment_pattern, bearer, check_bearer_pattern, check_aws_key_pattern, check_github_token,
  check_openai_key, check_cli_secret_flag, check_jwt_prefix, check_snake_key_pattern,
  check_lowercase_secret_suffix,
}

abbrev pub redacted : Text
redacted = codes "[REDACTED]"

-- What an iteration of the loop writes, and how far it moves.
abbrev pub Round : Type 0
Round = Text × ℕ

-- An assignment: its key, an equals sign, and the mark in place of the value.
abbrev assignment : Text → ℕ × ℕ × ℕ → Round
assignment s (key_len, value_start, value_end) = (take key_len s ++ b'=' ∷ redacted, value_end)

-- A whole token: what stands before `start`, and the mark.
abbrev whole_token : Text → ℕ × ℕ → Round
whole_token s (start, end) = (take start s ++ redacted, end)

-- The token after `Bearer `, and then the white space.
bearer_token : Text → ℕ → Round
bearer_token s bearer_end =
    let rest = drop bearer_end s in
    let token_len = run (λ b. not (is_ascii_whitespace b) && not (nat_eq b b'\'')) rest in
    (bearer ++ redacted, bearer_end + (token_len + run is_ascii_whitespace (drop token_len rest)))

-- The value after a flag.
flag_value : Text → ℕ → Round
flag_value s flag_end = (
  take flag_end s ++ redacted,
  flag_end + run (λ b. not (is_ascii_whitespace b)) (drop flag_end s),
)

abbrev char_len : ℕ → ℕ
char_len b = if ltb b 0x80 then 1 else if ltb b 0xe0 then 2 else if ltb b 0xf0 then 3 else 4

-- The character at the position.
copy_char : Text → Round
copy_char [] = ([], 1)
copy_char (b ∷ s) = (take (char_len b) (b ∷ s), char_len b)

abbrev pub otherwise {ℓ} : {A : Type ℓ} → (A → Round) → Option A → Round → Round
otherwise found none next = next
otherwise found (some a) next = found a

-- The checks in their order.
unfoldable pub round : Text → Round
unfolding bearer_token flag_value copy_char
round s = otherwise (assignment s) (check_assignment_pattern s) (
    otherwise (bearer_token s) (check_bearer_pattern s) (
      otherwise (whole_token s) (check_aws_key_pattern s) (
        otherwise (whole_token s) (check_github_token s) (
          otherwise (whole_token s) (check_openai_key s) (
            otherwise (flag_value s) (check_cli_secret_flag s) (
              otherwise (whole_token s) (check_jwt_prefix s) (
                otherwise (assignment s) (check_snake_key_pattern s)
                  (otherwise (assignment s) (check_lowercase_secret_suffix s) (copy_char s)))))))))

-- The loop; `none` means that the fuel ran out.
sanitize_loop : ℕ → Text → Text → Option Text
sanitize_loop fuel result [] = some result
sanitize_loop zero result (b ∷ s) = none
sanitize_loop (suc fuel) result (b ∷ s) =
    let (written, moved) = round (b ∷ s) in
    sanitize_loop fuel (result ++ written) (drop moved (b ∷ s))

unfoldable pub sanitize_command : Text → Option Text
unfolding sanitize_loop round
sanitize_command input = sanitize_loop (length input) [] input
