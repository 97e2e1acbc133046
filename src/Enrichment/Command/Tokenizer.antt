-- ===== src/Enrichment/Command/Tokenizer.antt =====
-- The tokenizer of crates/enrichment-engine/src/extractors/command_extractor.rs. The iterator over the
-- characters is the text that is left.
pub mod Fuel
pub mod Quoted
pub mod Safe
use bastion.Base.{
  ℕ, zero, suc, ◌+◌, ◌%◌, ◌^◌, Bool, true, false, ◌||◌, List, [], ◌∷◌, ◌++◌, any, ltb, nat_eq,
  if◌then◌else◌, Text, length,
}
use bastion.Base.Chars.{len_utf8, is_whitespace, is_empty}

pub data Diagnostic : Type 0 where
  unsafe_token : ℕ → Diagnostic
  command_too_long : ℕ → ℕ → Diagnostic
  empty_command : Diagnostic
  unclosed_quote : Text → Diagnostic

-- `stuck` means that the fuel ran out.
pub data Tokenized {ℓ} (A : Type ℓ) : Type ℓ where
  ok : A → Tokenized A
  err : Diagnostic → Tokenized A
  stuck : Tokenized A

infixl 5 ◌>>=◌
abbrev pub ◌>>=◌ {ℓ κ} : {A : Type ℓ} {B : Type κ} → Tokenized A → (A → Tokenized B) → Tokenized B
ok a >>= f = f a
err e >>= f = err e
stuck >>= f = stuck

abbrev pub single_quote : ℕ
single_quote = b'\''

abbrev pub double_quote : ℕ
double_quote = b'"'

abbrev pub backslash : ℕ
backslash = b'\\'

abbrev pub is_unsafe : ℕ → Bool
is_unsafe c =
    any (nat_eq c)
      (b'`' ∷ b'$' ∷ b'|' ∷ b'&' ∷ b';' ∷ b'>' ∷ b'<' ∷ b'*' ∷ b'?' ∷ b'[' ∷ b'{' ∷ 0 ∷ [])

-- After an opening single quote, up to the closing one; the text read so far is `sq`.
unfoldable pub read_single : Text → Text → Tokenized (Text × Text)
read_single sq [] = err (unclosed_quote (single_quote ∷ sq))
read_single sq (c ∷ s) =
    let rest = read_single (sq ++ c ∷ []) s in if nat_eq c single_quote then ok (sq, s) else rest

-- What a backslash and this character stand for between double quotes.
abbrev pub escaped : ℕ → Text
escaped d =
    if nat_eq d double_quote
    then d ∷ []
    else if nat_eq d backslash
    then d ∷ []
    else if nat_eq d b'n'
    then b'\n' ∷ []
    else if nat_eq d b't'
    then b'\t' ∷ []
    else backslash ∷ d ∷ []

-- After an opening double quote, up to the closing one.
unfoldable pub read_double : Text → Text → Tokenized (Text × Text)
read_double token [] = err (unclosed_quote (double_quote ∷ token))
read_double token (c ∷ []) =
    if nat_eq c double_quote
    then ok (token, [])
    else if nat_eq c backslash
    then err (unclosed_quote (double_quote ∷ token))
    else err (unclosed_quote (double_quote ∷ (token ++ c ∷ [])))
read_double token (c ∷ d ∷ s) =
    let after_escape = read_double (token ++ escaped d) s in
    let after_char = read_double (token ++ c ∷ []) (d ∷ s) in
    if nat_eq c double_quote
    then ok (token, d ∷ s)
    else if nat_eq c backslash
    then after_escape
    else after_char

-- After a backslash outside quotes: the character that it protects, or itself at the end.
abbrev pub protected : Text → Text × Text
protected [] = (backslash ∷ [], [])
protected (d ∷ s) = (d ∷ [], s)

-- The rest of a token that starts with an ordinary character.
unfoldable pub read_word : ℕ → Text → Text → Tokenized (Text × Text)
unfolding read_single read_double
read_word fuel token [] = ok (token, [])
read_word zero token (c ∷ s) = stuck
read_word (suc fuel) token (c ∷ s) =
    let after_single = read_single [] s >>= λ (sq, rest). read_word fuel (token ++ sq) rest in
    let after_double = read_double token s >>= λ (longer, rest). read_word fuel longer rest in
    let after_backslash = read_word fuel (token ++ (protected s).0) (protected s).1 in
    let after_char = read_word fuel (token ++ c ∷ []) s in
    if is_whitespace c
    then ok (token, c ∷ s)
    else if is_unsafe c
    then err (unsafe_token c)
    else if nat_eq c single_quote
    then after_single
    else if nat_eq c double_quote
    then after_double
    else if nat_eq c backslash
    then after_backslash
    else after_char

-- A token that starts with this character.
unfoldable pub read_token : ℕ → ℕ → Text → Tokenized (Text × Text)
unfolding read_single read_double read_word
read_token fuel c s =
    if nat_eq c single_quote
    then read_single [] s
    else if nat_eq c double_quote
    then read_double [] s
    else if nat_eq c backslash
    then ok (protected s)
    else read_word fuel (c ∷ []) s

-- `command.len() as u32`.
abbrev pub byte_len : Text → ℕ
byte_len [] = 0
byte_len (c ∷ s) = len_utf8 c + byte_len s

abbrev pub len_u32 : Text → ℕ
len_u32 command = byte_len command % 2 ^ 32

-- The loop: whatever follows a dollar sign, the diagnostic is the same.
unfoldable pub tokenize_loop : ℕ → ℕ → ℕ → List Text → ℕ → Text → Tokenized (List Text)
unfolding read_token
tokenize_loop fuel max_tokens len tokens token_count [] = ok tokens
tokenize_loop zero max_tokens len tokens token_count (c ∷ s) = stuck
tokenize_loop (suc fuel) max_tokens len tokens token_count (c ∷ s) =
    let skipped = tokenize_loop fuel max_tokens len tokens token_count s in
    let read = read_token fuel c s >>= λ (token, rest).
    tokenize_loop fuel max_tokens len (tokens ++ token ∷ []) (token_count + 1) rest in
    if is_unsafe c
    then err (unsafe_token c)
    else if is_whitespace c
    then skipped
    else if ltb max_tokens (token_count + 1)
    then err (command_too_long (token_count + 1) len)
    else read

unfoldable pub tokenize : Text → ℕ → ℕ → Tokenized (List Text)
unfolding tokenize_loop
tokenize command max_tokens max_input_len =
    if is_empty command
    then err empty_command
    else if ltb max_input_len (len_u32 command)
    then err (command_too_long 0 (len_u32 command))
    else tokenize_loop (length command) max_tokens (len_u32 command) [] 0 command
