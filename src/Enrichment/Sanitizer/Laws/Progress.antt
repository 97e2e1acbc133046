-- ===== src/Enrichment/Sanitizer/Laws/Progress.antt =====
-- The loop of crates/enrichment-engine/src/sanitizer.rs: how far a round moves, and what the fuel gives.
use mathlib.Core.Option
use mathlib.Core.List.{append_assoc, append-nil}
use bastion.Base.{
  ℕ, zero, suc, ◌-◌, ◌<◌, ◌≤◌, ◌≡◌, refl, ap, ◌∙◌, [], ◌∷◌, ◌++◌, length, drop, Text, codes, Option,
  none, some, arith,
}
use bastion.Enrichment.Sanitizer.Checks.{
  find_assignment, check_assignment_pattern, check_bearer_pattern, check_aws_key_pattern,
  find_github, check_github_token, check_openai_long_prefix, check_openai_key,
  check_cli_secret_flag, check_jwt_prefix, check_snake_key_pattern, or_else,
  check_lowercase_secret_suffix,
}
use bastion.Enrichment.Sanitizer.{
  Round, assignment, whole_token, bearer_token, flag_value, copy_char, otherwise, round,
  sanitize_loop, sanitize_command,
}

-- What a check gives moves the loop forward.
abbrev Forward {ℓ} : {A : Type ℓ} → (A → Round) → Option A → Type 0
Forward found none = Unit {0}
Forward found (some a) = 0 < (found a).1

otherwise-Forward {ℓ} :
    {A : Type ℓ} (found : A → Round) (o : Option A) (next : Round)
    → Forward found o
    → 0 < next.1
    → 0 < (otherwise found o next).1
otherwise-Forward found none next h k = k
otherwise-Forward found (some a) next h k = h

assignment-Forward : (s : Text) → Forward (assignment s) (check_assignment_pattern s)
unfolding check_assignment_pattern find_assignment
assignment-Forward s = ground arith

bearer-Forward : (s : Text) → Forward (bearer_token s) (check_bearer_pattern s)
unfolding check_bearer_pattern bearer_token
bearer-Forward s = ground arith

aws-Forward : (s : Text) → Forward (whole_token s) (check_aws_key_pattern s)
unfolding check_aws_key_pattern
aws-Forward s = ground arith

github-Forward : (s : Text) → Forward (whole_token s) (check_github_token s)
unfolding check_github_token find_github
github-Forward s = ground arith

prefix-Forward :
    (s prefix : Text) (min_chars : ℕ)
    → 0 < length prefix
    → Forward (whole_token s) (check_openai_long_prefix s prefix min_chars)
unfolding check_openai_long_prefix
prefix-Forward s prefix min_chars h = ground arith

or_else-Forward :
    (s : Text) (a b : Option (ℕ × ℕ))
    → Forward (whole_token s) a
    → Forward (whole_token s) b
    → Forward (whole_token s) (or_else a b)
or_else-Forward s none b h k = k
or_else-Forward s (some a) b h k = h

openai-Forward : (s : Text) → Forward (whole_token s) (check_openai_key s)
unfolding check_openai_key
openai-Forward s = or_else-Forward s _ _ (prefix-Forward s (codes "sk-proj-") 16 (omega arith)) (
    or_else-Forward s _ _ (prefix-Forward s (codes "sk-svcacct-") 16 (omega arith)) (
      or_else-Forward s _ _ (prefix-Forward s (codes "sk-admin-") 16 (omega arith))
        (prefix-Forward s (codes "sk-") 48 (omega arith))))

flag-Forward : (s : Text) → Forward (flag_value s) (check_cli_secret_flag s)
unfolding check_cli_secret_flag flag_value
flag-Forward s = ground arith

jwt-Forward : (s : Text) → Forward (whole_token s) (check_jwt_prefix s)
unfolding check_jwt_prefix
jwt-Forward s = ground arith

snake-Forward : (s : Text) → Forward (assignment s) (check_snake_key_pattern s)
unfolding check_snake_key_pattern
snake-Forward s = ground arith

suffix-Forward : (s : Text) → Forward (assignment s) (check_lowercase_secret_suffix s)
unfolding check_lowercase_secret_suffix
suffix-Forward s = ground arith

copy_char-Forward : (b : ℕ) (s : Text) → 0 < (copy_char (b ∷ s)).1
unfolding copy_char
copy_char-Forward b s = ground arith

-- A round on a text that is not at its end moves forward.
round-Forward : (b : ℕ) (s : Text) → 0 < (round (b ∷ s)).1
unfolding round
round-Forward b s =
    let rest = b ∷ s in
    otherwise-Forward (assignment rest) _ _ (assignment-Forward rest) (
      otherwise-Forward (bearer_token rest) _ _ (bearer-Forward rest) (
        otherwise-Forward (whole_token rest) _ _ (aws-Forward rest) (
          otherwise-Forward (whole_token rest) _ _ (github-Forward rest) (
            otherwise-Forward (whole_token rest) _ _ (openai-Forward rest) (
              otherwise-Forward (flag_value rest) _ _ (flag-Forward rest) (
                otherwise-Forward (whole_token rest) _ _ (jwt-Forward rest) (
                  otherwise-Forward (assignment rest) _ _ (snake-Forward rest) (
                    otherwise-Forward (assignment rest) _ _ (suffix-Forward rest)
                      (copy_char-Forward b s)))))))))

-- The rounds of the loop, one after the other, with what they write.
pub data Redacts : Text → Text → Type 0 where
  done : Redacts [] []
  more :
      (b : ℕ) (s rest written : Text)
      → drop (round (b ∷ s)).1 (b ∷ s) ≡ rest
      → Redacts rest written
      → Redacts (b ∷ s) ((round (b ∷ s)).0 ++ written)

pub length-drop : (n : ℕ) (s : Text) → length (drop n s) ≡ length s - n
length-drop zero s = omega arith
length-drop (suc n) [] = omega arith
length-drop (suc n) (b ∷ s) = omega (arith, length-drop n s)

-- After a round the loop has less to read, and the fuel is enough.
less_left :
    (fuel b : ℕ) (s : Text)
    → length (b ∷ s) ≤ suc fuel
    → length (drop (round (b ∷ s)).1 (b ∷ s)) ≤ fuel
less_left fuel b s h = omega (arith, length-drop (round (b ∷ s)).1 (b ∷ s), round-Forward b s)

-- With a unit of fuel for each byte the loop ends.
loop-ends : (fuel : ℕ) (s : Text) → length s ≤ fuel → (written : Text) × Redacts s written
loop-ends fuel [] h = ([], done)
loop-ends zero (b ∷ s) h = absurd (omega arith)
loop-ends (suc fuel) (b ∷ s) h =
    let (written, r) = loop-ends fuel (drop (round (b ∷ s)).1 (b ∷ s)) (less_left fuel b s h) in
    ((round (b ∷ s)).0 ++ written, more b s _ written refl r)

loop-Redacts :
    (fuel : ℕ) (result : Text) {s written : Text}
    → length s ≤ fuel
    → Redacts s written
    → sanitize_loop fuel result s ≡ some (result ++ written)
unfolding sanitize_loop
loop-Redacts fuel result h done = rw (append-nil result) refl
loop-Redacts zero result h (more b s rest w e r) = absurd (omega arith)
loop-Redacts (suc fuel) result h (more b s rest w e r) =
    let enough : length rest ≤ fuel = rw (← e) (less_left fuel b s h) in
    let later = loop-Redacts fuel (result ++ (round (b ∷ s)).0) enough r in
    rw (sanitize_loop, e) (later ∙ ap some (append_assoc result (round (b ∷ s)).0 w))

-- The loop always ends, and what it gives is what its rounds write, one after the other.
pub sanitize_command-Redacts :
    (input : Text)
    → (written : Text) × (sanitize_command input ≡ some written) × Redacts input written
unfolding sanitize_command
sanitize_command-Redacts input =
    let (written, r) = loop-ends (length input) input (omega arith) in
    (written, loop-Redacts (length input) [] (omega arith) r, r)

-- The rounds determine what the sanitizer gives.
pub Redacts-sanitize_command :
    {input written : Text} → Redacts input written → sanitize_command input ≡ some written
unfolding sanitize_command
Redacts-sanitize_command {input} r = loop-Redacts (length input) [] (omega arith) r

-- A round that is known, and what the sanitizer gives for the rest.
pub sanitize-round :
    (b : ℕ) (s : Text) (found : Round)
    → round (b ∷ s) ≡ found
    → sanitize_command (b ∷ s)
      ≡ Option.map (λ t. found.0 ++ t) (sanitize_command (drop found.1 (b ∷ s)))
sanitize-round b s found e =
    let rest = drop found.1 (b ∷ s) in
    let (written, given, r) = sanitize_command-Redacts rest in
    let moved : drop (round (b ∷ s)).1 (b ∷ s) ≡ rest =
      ap (λ (known : Round). drop known.1 (b ∷ s)) e in
    let whole : sanitize_command (b ∷ s) ≡ some ((round (b ∷ s)).0 ++ written) =
      Redacts-sanitize_command (more b s rest written moved r) in
    rw given (whole ∙ ap (λ (known : Round). some (known.0 ++ written)) e)

-- The same for a text that is not at its end.
pub sanitize_round_of :
    (s : Text) (found : Round)
    → 0 < length s
    → round s ≡ found
    → sanitize_command s ≡ Option.map (λ t. found.0 ++ t) (sanitize_command (drop found.1 s))
sanitize_round_of [] found h e = absurd (omega arith)
sanitize_round_of (b ∷ s) found h e = sanitize-round b s found e
