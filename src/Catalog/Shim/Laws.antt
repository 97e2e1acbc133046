-- ===== src/Catalog/Shim/Laws.antt =====
-- The conditions that crates/bastion-infrastructure/src/catalog/toml_assertion_parser.rs writes for
-- texts in an output, and what the rules make of them.
use bastion.Base.{
  ℕ, ◌+◌, ◌≡◌, refl, sym, ap, ◌∙◌, inl, inr, Bool, true, false, ◌||◌, Option, List, [], ◌∷◌, ◌++◌,
  nat_eq, Text, codes, All, all, Bool-cases, arith,
}
use bastion.Base.Chars.{contains, is_ascii_letter}
use bastion.Rules.Token.{TokenKind}
use bastion.Rules.Lexer.{Lexer, at, next_token, keyword_kind, in_word}
use bastion.Rules.Lexer.Words.{
  is_special, escaped_text, behind, Gives, literal-Gives, opening-Gives, closing-Gives, word-Gives,
  end-is_eof,
}
use bastion.Rules.Expr.{Expr, Result}
use bastion.Rules.Parser.{Parser, start, advance, parse}
use bastion.Rules.Parser.Calls.{build_call}
use bastion.Rules.Parser.Grammar.{
  Level, Derives, literal_str, call, alone, positive, single, one, first, no_more,
}
use bastion.Rules.Parser.Grammar.Sees.{Sees, here, token}
use bastion.Rules.Parser.Accepts.{parse_complete}
use bastion.Rules.Facts.{new_context}
use bastion.Rules.Eval.{evaluate}
use bastion.Catalog.Experience.{ExperienceRecord}
use bastion.Catalog.Assertion.{AssertionCheck, check_contains, evaluate_check}
use bastion.Catalog.Shim.{
  replace, escape_cel_string, to_cel_condition, ShimResult, ComparisonResult, operation_of, compare,
  eval_cel_on_record, evaluate_toml_check,
}

escape-escaped_text : (s : Text) → escape_cel_string s ≡ escaped_text s
unfolding escape_cel_string
escape-escaped_text [] = refl
escape-escaped_text (c ∷ s) = elim (Bool-cases (nat_eq c b'\\')) [
  | inl backslash ↦
      let itself : c ≡ b'\\' = ground arith in
      rw itself (ap (λ t. b'\\' ∷ b'\\' ∷ t) (escape-escaped_text s))
  | inr other ↦ elim (Bool-cases (nat_eq c b'\'')) [
    | inl quote ↦
        let itself : c ≡ b'\'' = ground arith in
        rw itself (ap (λ t. b'\\' ∷ b'\'' ∷ t) (escape-escaped_text s))
    | inr plain ↦ rw (other, plain, replace) (ap (λ t. c ∷ t) (escape-escaped_text s))
  ]
]

escaped_text-plain : (s : Text) → All (λ c. is_special c ≡ false) s → escaped_text s ≡ s
escaped_text-plain [] h = refl
escaped_text-plain (c ∷ s) (plain, h) = rw plain (ap (λ (t : Text). c ∷ t) (escaped_text-plain s h))

abbrev stream_call : Text → Text → Text
stream_call name s = name ++ b'(' ∷ b'\'' ∷ (escaped_text s ++ codes "')")

module _ (is_alphanumeric : ℕ → Bool)
    (letters : (c : ℕ) → is_ascii_letter c ≡ true → is_alphanumeric c ≡ true)
    (paren : is_alphanumeric b'(' ≡ false) where
  -- The state that the parser is in before the token at a state of the lexer.
  abbrev reading : Lexer → Parser
  reading lx = record {
    lexer = (next_token is_alphanumeric lx).1;
    current = (next_token is_alphanumeric lx).0;
  }

  step :
      (lx next : Lexer) (k : TokenKind) (ks : List TokenKind) (q : Parser)
      → Gives is_alphanumeric lx k next
      → Sees is_alphanumeric (reading next) ks q
      → Sees is_alphanumeric (reading lx) (k ∷ ks) q
  unfolding advance
  step lx next k ks q (kind, at_next) s = token kind (rw (advance, at_next) s)

  abbrev Word : Text → Type 0
  Word w = All (λ c. in_word is_alphanumeric c ≡ true) w

  abbrev call_tokens : Text → Text → List TokenKind
  call_tokens name s =
      TokenKind.ident name
      ∷ TokenKind.lparen
      ∷ TokenKind.str (escaped_text s)
      ∷ TokenKind.rparen
      ∷ []

  -- The tokens of the condition for a text.
  Sees-call :
      (w s : Text)
      → Word (b's' ∷ w)
      → keyword_kind (b's' ∷ w) ≡ TokenKind.ident (b's' ∷ w)
      → (q : Parser) × Sees is_alphanumeric
          (start is_alphanumeric (stream_call (b's' ∷ w) s))
          (call_tokens (b's' ∷ w) s)
          q
        × (q.current.kind ≡ TokenKind.eof)
  unfolding start
  Sees-call w s h k =
      let quoted = b'\'' ∷ (escaped_text s ++ codes "')") in
      let opened = behind (b's' ∷ w) 0 in
      let closed = behind (escaped_text s) (opened + 1 + 1) + 1 in
      (
        reading (at [] (closed + 1)),
        step _ (at (b'(' ∷ quoted) opened) _ _ _
            (rw (sym k) (word-Gives is_alphanumeric w quoted 0 h (rw paren refl)))
            (step _ (at quoted (opened + 1)) _ _ _ (opening-Gives is_alphanumeric quoted opened) (
              step _ (at (codes ")") closed) _ _ _
                (literal-Gives is_alphanumeric s (codes ")") (opened + 1))
                (step _ (at [] (closed + 1)) _ _ _ (closing-Gives is_alphanumeric [] closed)
                  here))),
        end-is_eof is_alphanumeric (closed + 1),
      )

  Derives-call :
      (valid : Text → Bool) (name s : Text) (e : Expr)
      → build_call valid name (Expr.str (escaped_text s) ∷ []) ≡ Result.ok e
      → Derives valid Level.disjunction (call_tokens name s) e
  Derives-call valid name s e h =
      let literal = TokenKind.str (escaped_text s) ∷ [] in
      let argument =
        first literal [] _ [] (one (single (positive (alone (literal_str _))))) no_more in
      one (single (positive (alone (call (TokenKind.ident name) name literal _ e refl argument h))))

  parse-call :
      (valid : Text → Bool) (w s : Text) (e : Expr)
      → Word (b's' ∷ w)
      → keyword_kind (b's' ∷ w) ≡ TokenKind.ident (b's' ∷ w)
      → build_call valid (b's' ∷ w) (Expr.str (escaped_text s) ∷ []) ≡ Result.ok e
      → parse is_alphanumeric valid (stream_call (b's' ∷ w) s) ≡ Result.ok e
  parse-call valid w s e h k built =
      let (q, seen, ended) = Sees-call w s h k in
      parse_complete is_alphanumeric letters valid (stream_call (b's' ∷ w) s)
        (call_tokens (b's' ∷ w) s) e q (Derives-call valid (b's' ∷ w) s e built) seen ended

  in_word-letter :
      (c : ℕ) → (is_ascii_letter c || nat_eq c b'_') ≡ true → in_word is_alphanumeric c ≡ true
  in_word-letter c h = ground (arith, letters c)

  letters-Word : (w : Text) → all (λ c. is_ascii_letter c || nat_eq c b'_') w ≡ true → Word w
  letters-Word [] h = tt
  letters-Word (c ∷ w) h = elim (Bool-cases (is_ascii_letter c || nat_eq c b'_')) [
    | inl letter ↦ (in_word-letter c letter, letters-Word w (ground (arith, letter, h)))
    | inr other ↦ absurd (ground (arith, other, h))
  ]

  module _ (valid : Text → Bool) (regex : Text → Text → Option Bool) (debug : Text → Text) where
    -- For a text in an output, whatever its characters, the condition is parsed, and the rules look
    -- for the text with a backslash before each of its backslashes and quotes: `evaluate_toml_check`
    -- compares the verdict of the check on the text itself with that.
    pub contains_check-escaped :
        (s : Text) (r : ExperienceRecord)
        → (evaluate_toml_check is_alphanumeric valid regex debug
              (AssertionCheck.stdout_contains s)
              r
            ≡ compare is_alphanumeric valid regex
                (evaluate_check debug (AssertionCheck.stdout_contains s) r)
                (ShimResult.ok (contains r.stdout_summary (escape_cel_string s))))
          × (evaluate_toml_check is_alphanumeric valid regex debug
                (AssertionCheck.stderr_contains s)
                r
              ≡ compare is_alphanumeric valid regex
                  (evaluate_check debug (AssertionCheck.stderr_contains s) r)
                  (ShimResult.ok (contains r.stderr_summary (escape_cel_string s))))
    unfolding evaluate_toml_check eval_cel_on_record to_cel_condition evaluate operation_of
        new_context is_ascii_letter keyword_kind build_call
    contains_check-escaped s r =
        let out =
          parse-call valid (codes "tdout_contains") s (Expr.stdout_contains (escaped_text s))
            (letters-Word (codes "stdout_contains") refl) refl refl in
        let error =
          parse-call valid (codes "tderr_contains") s (Expr.stderr_contains (escaped_text s))
            (letters-Word (codes "stderr_contains") refl) refl refl in
        rw (escape-escaped_text s) (
          rw (evaluate_toml_check, eval_cel_on_record, out) refl,
          rw (evaluate_toml_check, eval_cel_on_record, error) refl,
        )

    -- Both evaluations succeed, agree, and say whether the text is there.
    abbrev pub Agrees : ShimResult ComparisonResult → Bool → Type 0
    Agrees result found =
        (c : ComparisonResult) × (result ≡ ShimResult.ok c)
        × (c.matches ≡ true)
        × (c.legacy_passed ≡ found)
        × (c.cel_passed ≡ found)

    contains-Agrees :
        (stream text sub : Text)
        → Agrees
            (compare is_alphanumeric valid regex
              (check_contains debug stream text sub)
              (ShimResult.ok (contains text sub)))
            (contains text sub)
    contains-Agrees stream text sub = elim (Bool-cases (contains text sub)) [
      | inl found ↦ rw found (_, refl, refl, refl, refl)
      | inr absent ↦ rw absent (_, refl, refl, refl, refl)
    ]

    -- For a text without backslashes and quotes, the check of an output and its condition agree,
    -- whatever the text and the record are: both say whether the text stands in the output.
    pub contains_check-Agrees :
        (s : Text) (r : ExperienceRecord)
        → All (λ c. is_special c ≡ false) s
        → Agrees
            (evaluate_toml_check is_alphanumeric valid regex debug
              (AssertionCheck.stdout_contains s)
              r)
            (contains r.stdout_summary s)
          × Agrees
              (evaluate_toml_check is_alphanumeric valid regex debug
                (AssertionCheck.stderr_contains s)
                r)
              (contains r.stderr_summary s)
    unfolding evaluate_check
    contains_check-Agrees s r plain =
        let itself = escape-escaped_text s ∙ escaped_text-plain s plain in
        let (out, error) = contains_check-escaped s r in
        (
          rw (out, itself) (contains-Agrees (codes "stdout") r.stdout_summary s),
          rw (error, itself) (contains-Agrees (codes "stderr") r.stderr_summary s),
        )
