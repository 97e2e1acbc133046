-- ===== src/Rules/Parser/Accepts.antt =====
-- Texts whose tokens the grammar derives, for the parser of crates/enrichment-engine/src/rules/ast.rs.
use bastion.Base.{
  ℕ, suc, ◌+◌, ◌*◌, ◌≤◌, ◌≡◌, refl, Bool, true, false, List, [], ◌∷◌, arith, length, All, Text,
}
use bastion.Base.Chars.{is_ascii_letter}
use bastion.Rules.Token.{TokenKind}
use bastion.Rules.Lexer.{is_eof}
use bastion.Rules.Expr.{Expr, ok}
use bastion.Rules.Parser.{Parser, start, advance, finish, parse}
use bastion.Rules.Parser.Fuel.{measure, measure-advance, measure-start}
use bastion.Rules.Parser.Grammar.{Level, Derives}
use bastion.Rules.Parser.Grammar.Heads.{phrase_real}
use bastion.Rules.Parser.Grammar.Sees.{Sees, here, token}
use bastion.Rules.Parser.Grammar.Loops.{or-done}
use bastion.Rules.Parser.Complete.{disjunction-parses}

module _ (is_alphanumeric : ℕ → Bool)
    (letters : (c : ℕ) → is_ascii_letter c ≡ true → is_alphanumeric c ≡ true)
    (valid : Text → Bool) where
  Sees-measure :
      (p q : Parser) (ks : List TokenKind)
      → Sees is_alphanumeric p ks q
      → All (λ k. is_eof k ≡ false) ks
      → length ks + measure q ≤ measure p
  Sees-measure p q [] here h = omega arith
  Sees-measure p q (k ∷ ks) (token e s) (h, hs) =
      let rest = Sees-measure (advance is_alphanumeric p) q ks s hs in
      let next = measure-advance is_alphanumeric letters p in rw (e, h) (omega (arith, rest, next))

  -- If the tokens of a text are those of a phrase of the grammar, and then its end, then `parse`
  -- gives the expression that the grammar derives: `or`, `and`, `not`, comparisons, calls and
  -- parentheses bind and group as the grammar says, and no phrase is refused.
  pub parse_complete :
      (input : Text) (ks : List TokenKind) (e : Expr) (q : Parser)
      → Derives valid Level.disjunction ks e
      → Sees is_alphanumeric (start is_alphanumeric input) ks q
      → q.current.kind ≡ TokenKind.eof
      → parse is_alphanumeric valid input ≡ ok e
  unfolding parse finish
  parse_complete input ks e q d s ended =
      let p = start is_alphanumeric input in
      let f = 9 * length input + 19 in
      let small = Sees-measure p q ks s (phrase_real valid d) in
      let begin = measure-start is_alphanumeric letters input in
      let loop =
        disjunction-parses is_alphanumeric valid d f p q s (rw ended refl)
          (omega (arith, small, begin)) in
      let whole =
        or-done is_alphanumeric valid f (9 * length ks) p q e loop (rw ended refl)
          (omega (arith, small, begin)) in
      let fuel : 9 * length input + 20 ≡ suc f = omega arith in
      rw (parse, fuel, whole, finish, ended) refl
