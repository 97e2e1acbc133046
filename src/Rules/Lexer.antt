-- ===== src/Rules/Lexer.antt =====
-- The lexer of crates/enrichment-engine/src/rules/lexer.rs. The state holds the input from `pos` on
-- in place of the whole input; `pos` counts bytes. `char::is_alphanumeric` is a table of Unicode, an
-- argument here.
pub mod Progress
pub mod Stream
pub mod Words
use bastion.Base.{
  ℕ, zero, suc, ◌+◌, ◌-◌, Bool, true, false, ◌&&◌, ◌||◌, Option, none, some, List, [], ◌∷◌, ◌++◌,
  nat_eq, if◌then◌else◌, Text, text_eq, ◌==◌, codes, length, take,
}
use mathlib.Core.Option
use bastion.Base.Int.{ℤ}
use bastion.Base.Chars.{len_utf8, is_whitespace, is_ascii_digit, is_ascii_letter, parse_i32}
use bastion.Rules.Token.{
  TokenKind, Token, eof, int, bool, str, ident, eq, ne, gt, lt, ge, le, and, or, not, lparen,
  rparen, comma, illegal, any_fact, all_fact, count_fact, duration_gt,
}

pub record Lexer : Type 0 where
  pub rest : Text
  pub pos : ℕ

abbrev pub at : Text → ℕ → Lexer
at rest pos = record { rest = rest; pos = pos }

unfoldable pub new : Text → Lexer
new input = at input 0

unfoldable pub advance : Lexer → Lexer
advance lx = elim lx.rest [ [] ↦ lx | c ∷ s ↦ at s (lx.pos + len_utf8 c) ]

abbrev second : Text → Option ℕ
second (c ∷ d ∷ s) = some d
second _ = none

abbrev is_some_char : Option ℕ → ℕ → Bool
is_some_char none d = false
is_some_char (some c) d = nat_eq c d

-- `self.peek_next() == Some(d)`.
abbrev next_is : Text → ℕ → Bool
next_is s d = is_some_char (second s) d

skip_from : Text → ℕ → Lexer
skip_from [] pos = at [] pos
skip_from (c ∷ s) pos =
    let skipped = skip_from s (pos + len_utf8 c) in
    if is_whitespace c then skipped else at (c ∷ s) pos

unfoldable pub skip_whitespace : Lexer → Lexer
unfolding skip_from
skip_whitespace lx = skip_from lx.rest lx.pos

abbrev keep : ℕ → Text × Lexer → Text × Lexer
keep c (text, lx) = (c ∷ text, lx)

-- The loop of `string_literal`: the characters before the closing quote, and the state after it.
-- The character after a backslash is passed over; both stay in the text.
string_from : Bool → Text → ℕ → Text × Lexer
string_from escaped [] pos = ([], at [] pos)
string_from true (c ∷ s) pos = keep c (string_from false s (pos + len_utf8 c))
string_from false (c ∷ s) pos =
    let more = keep c (string_from (nat_eq c b'\\') s (pos + len_utf8 c)) in
    if nat_eq c b'\'' then ([], at s (pos + len_utf8 c)) else more

-- The loops of `integer` and of `identifier_or_keyword`: the longest run that passes the test.
run_of : (ℕ → Bool) → Text → ℕ → Text × Lexer
run_of test [] pos = ([], at [] pos)
run_of test (c ∷ s) pos =
    let more = keep c (run_of test s (pos + len_utf8 c)) in
    if test c then more else ([], at (c ∷ s) pos)

abbrev as_kind : {A : Type 0} → (A → TokenKind) → A × Lexer → TokenKind × Lexer
as_kind f (a, lx) = (f a, lx)

-- `text.parse::<i32>()`.
abbrev int_kind : Option ℤ → TokenKind
int_kind none = illegal
int_kind (some n) = int n

abbrev keywords : List (Text × TokenKind)
keywords =
    (codes "true", bool true)
    ∷ (codes "false", bool false)
    ∷ (codes "and", and)
    ∷ (codes "or", or)
    ∷ (codes "not", not)
    ∷ (codes "any_fact", any_fact)
    ∷ (codes "all_fact", all_fact)
    ∷ (codes "count_fact", count_fact)
    ∷ (codes "duration_gt", duration_gt)
    ∷ []

keyword_in : List (Text × TokenKind) → Text → TokenKind
keyword_in [] text = ident text
keyword_in ((word, kind) ∷ rest) text = if word == text then kind else keyword_in rest text

unfoldable pub keyword_kind : Text → TokenKind
unfolding keyword_in
keyword_kind text = keyword_in keywords text

abbrev pub is_eof : TokenKind → Bool
is_eof eof = true
is_eof _ = false

module _ (is_alphanumeric : ℕ → Bool) where
  abbrev pub in_word : ℕ → Bool
  in_word c = is_alphanumeric c || nat_eq c b'_'

  -- The arms of the `match ch`, for the character `c` at the head of the rest `c ∷ s`.
  pub scan : ℕ → Text → ℕ → TokenKind × Lexer
  unfolding string_from run_of keyword_kind is_ascii_digit is_ascii_letter parse_i32 advance
  scan c s pos =
      let one = advance (at (c ∷ s) pos) in
      let two = advance one in
      if nat_eq c b'('
      then (lparen, one)
      else if nat_eq c b')'
      then (rparen, one)
      else if nat_eq c b','
      then (comma, one)
      else if nat_eq c b'=' && next_is (c ∷ s) b'='
      then (eq, two)
      else if nat_eq c b'!' && next_is (c ∷ s) b'='
      then (ne, two)
      else if nat_eq c b'>' && next_is (c ∷ s) b'='
      then (ge, two)
      else if nat_eq c b'<' && next_is (c ∷ s) b'='
      then (le, two)
      else if nat_eq c b'>'
      then (gt, one)
      else if nat_eq c b'<'
      then (lt, one)
      else if nat_eq c b'\''
      then as_kind str (string_from false s (pos + len_utf8 c))
      else if is_ascii_digit c
      then as_kind (λ text. int_kind (parse_i32 text)) (run_of is_ascii_digit (c ∷ s) pos)
      else if is_ascii_letter c || nat_eq c b'_'
      then as_kind keyword_kind (run_of in_word (c ∷ s) pos)
      else (illegal, one)

  -- The token at a state that stands behind whitespace.
  token_at : Text → ℕ → Token × Lexer
  unfolding scan
  token_at [] pos = (record { kind = eof; position = pos; lexeme = [] }, at [] pos)
  token_at (c ∷ s) pos =
      let (kind, lx) = scan c s pos in
      (
        record {
          kind = kind;
          position = pos;
          lexeme = take (length (c ∷ s) - length lx.rest) (c ∷ s);
        },
        lx,
      )

  unfoldable pub next_token : Lexer → Token × Lexer
  unfolding token_at skip_whitespace
  next_token lx = let skipped = skip_whitespace lx in token_at skipped.rest skipped.pos

  -- The loop of `tokenize`; `none` if the fuel runs out.
  tokenize_from : ℕ → Lexer → Option (List Token)
  tokenize_from zero lx = none
  tokenize_from (suc f) lx =
      let (token, lx') = next_token lx in
      let rest = Option.map (λ tokens. token ∷ tokens) (tokenize_from f lx') in
      if is_eof token.kind then some (token ∷ []) else rest

  unfoldable pub tokenize : Lexer → Option (List Token)
  unfolding tokenize_from next_token
  tokenize lx = tokenize_from (suc (length lx.rest)) lx
