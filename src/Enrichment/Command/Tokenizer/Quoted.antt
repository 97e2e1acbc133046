-- ===== src/Enrichment/Command/Tokenizer/Quoted.antt =====
-- Tokens written between double quotes, and how the tokenizer of
-- crates/enrichment-engine/src/extractors/command_extractor.rs reads them.
use mathlib.Core.List.{append_assoc, append-nil}
use bastion.Base.{
  ℕ, zero, suc, ◌+◌, ◌≤◌, ◌<◌, ◌≡◌, refl, sym, ap, ◌∙◌, inl, inr, Bool, true, false, ◌||◌, List, [],
  ◌∷◌, ◌++◌, ltb, nat_eq, if◌then◌else◌, length, Bool-cases, Text, arith,
}
use bastion.Base.Chars.{is_whitespace}
use bastion.Enrichment.Command.Tokenizer.{
  ok, double_quote, backslash, escaped, len_u32, read_double, read_token, tokenize_loop, tokenize,
}

abbrev is_special : ℕ → Bool
is_special c = nat_eq c double_quote || nat_eq c backslash

-- The characters of a token, escaped, before a text.
abbrev pub escape_text : Text → Text → Text
escape_text [] rest = rest
escape_text (c ∷ t) rest =
    if is_special c then backslash ∷ c ∷ escape_text t rest else c ∷ escape_text t rest

-- Each token between double quotes, and a space after it.
abbrev pub command_of : List Text → Text
command_of [] = []
command_of (t ∷ tokens) = double_quote ∷ escape_text t (double_quote ∷ b' ' ∷ command_of tokens)

read_double-close : (token rest : Text) → read_double token (double_quote ∷ rest) ≡ ok (token, rest)
unfolding read_double
read_double-close token [] = refl
read_double-close token (d ∷ s) = refl

read_double-plain :
    (token : Text) (c : ℕ) (s : Text)
    → is_special c ≡ false
    → read_double token (c ∷ s) ≡ read_double (token ++ c ∷ []) s
unfolding read_double
read_double-plain token c [] h = ground arith
read_double-plain token c (d ∷ s) h =
    let no_quote : nat_eq c double_quote ≡ false = ground arith in
    let no_escape : nat_eq c backslash ≡ false = ground arith in rw (no_quote, no_escape) refl

read_double-special :
    (token : Text) (c : ℕ) (s : Text)
    → is_special c ≡ true
    → read_double token (backslash ∷ c ∷ s) ≡ read_double (token ++ c ∷ []) s
unfolding read_double
read_double-special token c s h = let itself : escaped c ≡ c ∷ [] = ground arith in rw itself refl

-- Between double quotes any text is read back.
read_double-escape_text :
    (token t rest : Text)
    → read_double token (escape_text t (double_quote ∷ rest)) ≡ ok (token ++ t, rest)
read_double-escape_text token [] rest = rw (append-nil token) (read_double-close token rest)
read_double-escape_text token (c ∷ t) rest =
    let body = escape_text t (double_quote ∷ rest) in
    let later = read_double-escape_text (token ++ c ∷ []) t rest in
    let joined : ok ((token ++ c ∷ []) ++ t, rest) ≡ ok (token ++ c ∷ t, rest) =
      ap (λ (whole : Text). ok (whole, rest)) (append_assoc token (c ∷ []) t) in
    (elim (Bool-cases (is_special c)) [
      | inl special ↦ rw special (read_double-special token c body special)
      | inr plain ↦ rw plain (read_double-plain token c body plain)
    ])
    ∙ later
    ∙ joined

length-escape_text-le : (t rest : Text) → length rest ≤ length (escape_text t rest)
length-escape_text-le [] rest = omega arith
length-escape_text-le (c ∷ t) rest = ground (arith, length-escape_text-le t rest)

-- The loop on the first token and the space after it.
loop-token :
    (fuel max_tokens len : ℕ) (tokens : List Text) (token_count : ℕ) (t rest : Text)
    → token_count < max_tokens
    → tokenize_loop
        (suc (suc fuel))
        max_tokens
        len
        tokens
        token_count
        (double_quote ∷ escape_text t (double_quote ∷ b' ' ∷ rest))
      ≡ tokenize_loop fuel max_tokens len (tokens ++ t ∷ []) (token_count + 1) rest
unfolding tokenize_loop read_token is_whitespace
loop-token fuel max_tokens len tokens token_count t rest h =
    let room : ltb max_tokens (token_count + 1) ≡ false = ground arith in
    rw (tokenize_loop, room, read_double-escape_text [] t (b' ' ∷ rest)) refl

longer_command :
    (t : Text) (tokens : List Text)
    → length (command_of tokens) + 3 ≤ length (command_of (t ∷ tokens))
longer_command t tokens =
    omega (arith, length-escape_text-le t (double_quote ∷ b' ' ∷ command_of tokens))

loop-command_of :
    (fuel max_tokens len : ℕ) (before : List Text) (token_count : ℕ) (tokens : List Text)
    → length (command_of tokens) ≤ fuel
    → token_count + length tokens ≤ max_tokens
    → tokenize_loop fuel max_tokens len before token_count (command_of tokens)
      ≡ ok (before ++ tokens)
unfolding tokenize_loop
loop-command_of fuel max_tokens len before token_count [] h k = ap ok (sym (append-nil before))
loop-command_of zero max_tokens len before token_count (t ∷ tokens) h k =
    absurd (omega (arith, longer_command t tokens, h))
loop-command_of (suc zero) max_tokens len before token_count (t ∷ tokens) h k =
    absurd (omega (arith, longer_command t tokens, h))
loop-command_of (suc (suc fuel)) max_tokens len before token_count (t ∷ tokens) h k =
    loop-token fuel max_tokens len before token_count t (command_of tokens) (omega (arith, k))
    ∙ loop-command_of fuel max_tokens len (before ++ t ∷ []) (token_count + 1) tokens
        (omega (arith, longer_command t tokens, h)) (omega (arith, k))
    ∙ ap ok (append_assoc before (t ∷ []) tokens)

-- Tokens of any text, each written between double quotes with its double quotes and backslashes
-- escaped, are read back, if there is one, and neither they nor the command are too many or too long.
pub tokenize-command_of :
    (t : Text) (tokens : List Text) (max_tokens max_input_len : ℕ)
    → length (t ∷ tokens) ≤ max_tokens
    → len_u32 (command_of (t ∷ tokens)) ≤ max_input_len
    → tokenize (command_of (t ∷ tokens)) max_tokens max_input_len ≡ ok (t ∷ tokens)
unfolding tokenize
tokenize-command_of t tokens max_tokens max_input_len h k =
    let command = command_of (t ∷ tokens) in
    let short : ltb max_input_len (len_u32 command) ≡ false = ground arith in
    rw (tokenize, short)
      (loop-command_of (length command) max_tokens (len_u32 command) [] 0 (t ∷ tokens) (omega arith)
        (omega (arith, h)))
