-- ===== src/Rules/Lexer/Words.antt =====
-- The tokens of a call with one string literal, in crates/enrichment-engine/src/rules/lexer.rs.
use bastion.Base.{
  ℕ, ◌+◌, ◌≡◌, refl, ap, inl, inr, Bool, true, false, ◌||◌, [], ◌∷◌, ◌++◌, nat_eq, if◌then◌else◌,
  Text, All, Bool-cases, arith,
}
use bastion.Base.Chars.{len_utf8, is_whitespace, is_ascii_digit, is_ascii_letter}
use bastion.Rules.Token.{TokenKind}
use bastion.Rules.Lexer.{
  Lexer, at, string_from, run_of, in_word, keyword_kind, scan, token_at, advance, skip_from,
  skip_whitespace, next_token, keep,
}

abbrev pub is_special : ℕ → Bool
is_special c = nat_eq c b'\\' || nat_eq c b'\''

-- A backslash before each backslash and each quote.
abbrev pub escaped_text : Text → Text
escaped_text [] = []
escaped_text (c ∷ s) = if is_special c then b'\\' ∷ c ∷ escaped_text s else c ∷ escaped_text s

-- The byte behind a text that begins at a byte.
abbrev pub behind : Text → ℕ → ℕ
behind [] pos = pos
behind (c ∷ s) pos = behind s (pos + len_utf8 c)

-- A text of that kind ends at the quote behind it, and is what the literal stands for.
string_from-escaped :
    (s rest : Text) (pos : ℕ)
    → string_from false (escaped_text s ++ b'\'' ∷ rest) pos
      ≡ (escaped_text s, at rest (behind (escaped_text s) pos + 1))
unfolding string_from
string_from-escaped [] rest pos = refl
string_from-escaped (c ∷ s) rest pos = elim (Bool-cases (is_special c)) [
  | inl special ↦
      rw special
        (ap (λ r. keep b'\\' (keep c r)) (string_from-escaped s rest (pos + 1 + len_utf8 c)))
  | inr plain ↦
      let no_quote : nat_eq c b'\'' ≡ false = ground arith in
      let no_escape : nat_eq c b'\\' ≡ false = ground arith in
      rw (plain, string_from, no_quote, no_escape)
        (ap (keep c) (string_from-escaped s rest (pos + len_utf8 c)))
]

run_of_word :
    (test : ℕ → Bool) (w : Text) (d : ℕ) (s : Text) (pos : ℕ)
    → All (λ c. test c ≡ true) w
    → test d ≡ false
    → run_of test (w ++ d ∷ s) pos ≡ (w, at (d ∷ s) (behind w pos))
unfolding run_of
run_of_word test [] d s pos h k = rw (run_of, k) refl
run_of_word test (c ∷ w) d s pos (hc, h) k =
    rw (run_of, hc) (ap (keep c) (run_of_word test w d s (pos + len_utf8 c) h k))

module _ (is_alphanumeric : ℕ → Bool) where
  -- The token at a state, and the state behind it.
  abbrev pub Gives : Lexer → TokenKind → Lexer → Type 0
  Gives lx k next =
      ((next_token is_alphanumeric lx).0.kind ≡ k) × ((next_token is_alphanumeric lx).1 ≡ next)

  pub literal-Gives :
      (s rest : Text) (pos : ℕ)
      → Gives
          (at (b'\'' ∷ (escaped_text s ++ b'\'' ∷ rest)) pos)
          (TokenKind.str (escaped_text s))
          (at rest (behind (escaped_text s) (pos + 1) + 1))
  unfolding next_token token_at skip_whitespace skip_from is_whitespace scan
  literal-Gives s rest pos = rw (string_from-escaped s rest (pos + 1)) (refl, refl)

  pub opening-Gives :
      (rest : Text) (pos : ℕ) → Gives (at (b'(' ∷ rest) pos) TokenKind.lparen (at rest (pos + 1))
  unfolding next_token token_at skip_whitespace skip_from is_whitespace scan advance
  opening-Gives rest pos = (refl, refl)

  pub closing-Gives :
      (rest : Text) (pos : ℕ) → Gives (at (b')' ∷ rest) pos) TokenKind.rparen (at rest (pos + 1))
  unfolding next_token token_at skip_whitespace skip_from is_whitespace scan advance
  closing-Gives rest pos = (refl, refl)

  -- A word of word characters that begins with `s`, before a parenthesis.
  pub word-Gives :
      (w rest : Text) (pos : ℕ)
      → All (λ c. in_word is_alphanumeric c ≡ true) (b's' ∷ w)
      → in_word is_alphanumeric b'(' ≡ false
      → Gives
          (at (b's' ∷ (w ++ b'(' ∷ rest)) pos)
          (keyword_kind (b's' ∷ w))
          (at (b'(' ∷ rest) (behind (b's' ∷ w) pos))
  unfolding next_token token_at skip_whitespace skip_from is_whitespace is_ascii_digit
      is_ascii_letter scan
  word-Gives w rest pos h k =
      rw (run_of_word (in_word is_alphanumeric) (b's' ∷ w) b'(' rest pos h k) (refl, refl)

  pub end-is_eof : (pos : ℕ) → (next_token is_alphanumeric (at [] pos)).0.kind ≡ TokenKind.eof
  unfolding next_token token_at skip_whitespace skip_from
  end-is_eof pos = refl
