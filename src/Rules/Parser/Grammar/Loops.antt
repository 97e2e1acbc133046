-- ===== src/Rules/Parser/Grammar/Loops.antt =====
-- Single steps of the parser in crates/enrichment-engine/src/rules/ast.rs, for the phrases of the
-- grammar.
use bastion.Base.{
  ℕ, zero, suc, ◌+◌, ◌≤◌, ◌≡◌, refl, ◌∙◌, Bool, true, some, List, arith, Text, codes,
}
use bastion.Rules.Token.{TokenKind}
use bastion.Rules.Expr.{Expr, ok}
use bastion.Rules.Parser.{
  Parser, advance, close, parse_expression, parse_or, or_loop, parse_and, and_loop, parse_not,
  parse_primary, parse_ident_or_call, parse_call_args,
}
use bastion.Rules.Parser.Calls.{build_call, plain_identifier}
use bastion.Rules.Parser.Grammar.{callee}
use bastion.Rules.Parser.Grammar.Follow.{
  no_call, ends_disjunction, ends_conjunction, passes-lparen, passes-and, passes-or,
}

module _ (is_alphanumeric : ℕ → Bool) (valid : Text → Bool) where
  pub plain-parses :
      (f : ℕ) (name : Text) (p : Parser)
      → no_call p.current.kind ≡ true
      → 1 ≤ f
      → parse_ident_or_call is_alphanumeric valid f name p ≡ ok (plain_identifier name, p)
  unfolding parse_ident_or_call
  plain-parses zero name p h le = absurd (omega arith)
  plain-parses (suc f) name p h le = passes-lparen p.current.kind _ _ h

  pub and_loop-ends :
      (f : ℕ) (e : Expr) (p : Parser)
      → ends_conjunction p.current.kind ≡ true
      → 1 ≤ f
      → and_loop is_alphanumeric valid f e p ≡ ok (e, p)
  unfolding and_loop
  and_loop-ends zero e p h le = absurd (omega arith)
  and_loop-ends (suc f) e p h le = passes-and p.current.kind _ _ h

  pub or_loop-ends :
      (f : ℕ) (e : Expr) (p : Parser)
      → ends_disjunction p.current.kind ≡ true
      → 1 ≤ f
      → or_loop is_alphanumeric valid f e p ≡ ok (e, p)
  unfolding or_loop
  or_loop-ends zero e p h le = absurd (omega arith)
  or_loop-ends (suc f) e p h le = passes-or p.current.kind _ _ h

  pub callee-parses :
      (f : ℕ) (k : TokenKind) (name : Text) (p : Parser)
      → p.current.kind ≡ k
      → callee k ≡ some name
      → parse_primary is_alphanumeric valid (suc f) p
        ≡ parse_ident_or_call is_alphanumeric valid f name (advance is_alphanumeric p)
  unfolding parse_primary advance
  callee-parses f (TokenKind.ident n) name p e h =
      let same : n ≡ name = cc in rw (parse_primary, e, same) refl
  callee-parses f TokenKind.count_fact name p e h =
      let same : codes "count_fact" ≡ name = cc in rw (parse_primary, e, ← same) refl
  callee-parses f TokenKind.any_fact name p e h =
      let same : codes "any_fact" ≡ name = cc in rw (parse_primary, e, ← same) refl
  callee-parses f TokenKind.all_fact name p e h =
      let same : codes "all_fact" ≡ name = cc in rw (parse_primary, e, ← same) refl
  callee-parses f TokenKind.duration_gt name p e h =
      let same : codes "duration_gt" ≡ name = cc in rw (parse_primary, e, ← same) refl
  callee-parses f _ name p e h = cc

  -- The loop that the tokens lead to ends at a token that continues nothing.
  pub and-done :
      (f n : ℕ) (p q : Parser) (e : Expr)
      → (g : ℕ) × (f ≤ g + n + 1)
        × (parse_and is_alphanumeric valid f p ≡ and_loop is_alphanumeric valid g e q)
      → ends_conjunction q.current.kind ≡ true
      → n + 2 ≤ f
      → parse_and is_alphanumeric valid f p ≡ ok (e, q)
  and-done f n p q e (g, enough, same) h le = same ∙ and_loop-ends g e q h (omega (arith, enough))

  pub or-done :
      (f n : ℕ) (p q : Parser) (e : Expr)
      → (g : ℕ) × (f ≤ g + n + 1)
        × (parse_or is_alphanumeric valid f p ≡ or_loop is_alphanumeric valid g e q)
      → ends_disjunction q.current.kind ≡ true
      → n + 2 ≤ f
      → parse_expression is_alphanumeric valid (suc f) p ≡ ok (e, q)
  unfolding parse_expression
  or-done f n p q e (g, enough, same) h le = same ∙ or_loop-ends g e q h (omega (arith, enough))

  pub and-further :
      (f n b n' : ℕ) (p m q : Parser) (l r : Expr)
      → (g : ℕ) × (f ≤ g + n + 1)
        × (parse_and is_alphanumeric valid f p ≡ and_loop is_alphanumeric valid g l m)
      → m.current.kind ≡ TokenKind.and
      → ((g : ℕ)
          → b ≤ g
          → parse_not is_alphanumeric valid g (advance is_alphanumeric m) ≡ ok (r, q))
      → n + b + 2 ≤ f
      → n + 1 ≤ n'
      → (g : ℕ) × (f ≤ g + n' + 1)
        × (parse_and is_alphanumeric valid f p ≡ and_loop is_alphanumeric valid g (Expr.and l r) q)
  unfolding and_loop advance
  and-further f n b n' p m q l r (zero, enough, same) k right room more = absurd (omega arith)
  and-further f n b n' p m q l r (suc g, enough, same) k right room more =
      (g, omega (arith, enough), same ∙ rw (and_loop, k, right g (omega (arith, enough))) refl)

  pub or-further :
      (f n b n' : ℕ) (p m q : Parser) (l r : Expr)
      → (g : ℕ) × (f ≤ g + n + 1)
        × (parse_or is_alphanumeric valid f p ≡ or_loop is_alphanumeric valid g l m)
      → m.current.kind ≡ TokenKind.or
      → ((g : ℕ)
          → b ≤ g
          → parse_and is_alphanumeric valid g (advance is_alphanumeric m) ≡ ok (r, q))
      → n + b + 2 ≤ f
      → n + 1 ≤ n'
      → (g : ℕ) × (f ≤ g + n' + 1)
        × (parse_or is_alphanumeric valid f p ≡ or_loop is_alphanumeric valid g (Expr.or l r) q)
  unfolding or_loop advance
  or-further f n b n' p m q l r (zero, enough, same) k right room more = absurd (omega arith)
  or-further f n b n' p m q l r (suc g, enough, same) k right room more =
      (g, omega (arith, enough), same ∙ rw (or_loop, k, right g (omega (arith, enough))) refl)

  pub call-done :
      (f : ℕ) (name : Text) (p m q : Parser) (es : List Expr) (e : Expr)
      → p.current.kind ≡ TokenKind.lparen
      → parse_call_args is_alphanumeric valid f (advance is_alphanumeric p) ≡ ok (es, m)
      → m.current.kind ≡ TokenKind.rparen
      → advance is_alphanumeric m ≡ q
      → build_call valid name es ≡ ok e
      → parse_ident_or_call is_alphanumeric valid (suc f) name p ≡ ok (e, q)
  unfolding parse_ident_or_call advance
  call-done f name p m q es e opens args closes after built =
      rw (parse_ident_or_call, opens, args, close, closes, built, after) refl
