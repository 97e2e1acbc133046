-- ===== src/Rules/Parser.antt =====
-- The recursive-descent parser of crates/enrichment-engine/src/rules/ast.rs. The state holds the
-- lexer and the token that it gave last. Every call costs a unit of fuel.
pub mod Calls
pub mod Fuel
pub mod Grammar
pub mod Complete
pub mod Accepts
mod Tests
use bastion.Base.{
  ℕ, zero, suc, ◌+◌, ◌*◌, Bool, true, false, Option, none, some, List, [], ◌∷◌, ◌++◌, if◌then◌else◌,
  Text, codes, length,
}
use bastion.Rules.Token.{TokenKind, Token}
use bastion.Rules.Lexer.{Lexer, at, next_token, is_eof}
use bastion.Rules.Expr.{
  Expr, Expected, end_of_input, expression, rparen, unexpected_token, Result, ok, err, out_of_fuel,
  ◌>>=◌,
}
use Calls.{build_call, plain_identifier}

pub record Parser : Type 0 where
  pub lexer : Lexer
  pub current : Token

abbrev pub unexpected {ℓ} : {A : Type ℓ} → Parser → Expected → Result A
unexpected p expected = err (unexpected_token p.current.position expected p.current.kind)

module _ (is_alphanumeric : ℕ → Bool) where
  unfoldable pub start : Text → Parser
  start input =
      let (token, lx) = next_token is_alphanumeric (at input 0) in
      record { lexer = lx; current = token }

  unfoldable pub advance : Parser → Parser
  advance p =
      let (token, lx) = next_token is_alphanumeric p.lexer in record { lexer = lx; current = token }

-- The operators that `parse_comparison` looks for, and what it builds for each.
unfoldable pub comparison_of : TokenKind → Option (Expr → Expr → Expr)
comparison_of TokenKind.eq = some Expr.eq
comparison_of TokenKind.ne = some Expr.ne
comparison_of TokenKind.gt = some Expr.gt
comparison_of TokenKind.lt = some Expr.lt
comparison_of TokenKind.ge = some Expr.ge
comparison_of TokenKind.le = some Expr.le
comparison_of _ = none

-- With an operator the right side is parsed too.
abbrev compare_with :
    Option (Expr → Expr → Expr) → Expr → Parser → Result (Expr × Parser) → Result (Expr × Parser)
compare_with none left q right = ok (left, q)
compare_with (some op) left q right = do (e, p) ← right; ok (op left e, p)

module _ (is_alphanumeric : ℕ → Bool) (is_valid_regex : Text → Bool) where
  abbrev next : Parser → Parser
  next p = advance is_alphanumeric p

  -- `if self.current.kind != RParen { return Err(…) } self.advance();`
  abbrev pub close : Parser → Result Parser
  close p = elim p.current.kind [ TokenKind.rparen ↦ ok (next p) | _ ↦ unexpected p rparen ]

  unfoldable mutual
    pub parse_expression : ℕ → Parser → Result (Expr × Parser)
    parse_expression zero p = out_of_fuel
    parse_expression (suc f) p = parse_or f p

    pub parse_or : ℕ → Parser → Result (Expr × Parser)
    parse_or zero p = out_of_fuel
    parse_or (suc f) p = do (left, q) ← parse_and f p; or_loop f left q

    pub or_loop : ℕ → Expr → Parser → Result (Expr × Parser)
    or_loop zero left p = out_of_fuel
    or_loop (suc f) left p = elim p.current.kind [
      | TokenKind.or ↦ do (right, q) ← parse_and f (next p); or_loop f (Expr.or left right) q
      | _ ↦ ok (left, p)
    ]

    pub parse_and : ℕ → Parser → Result (Expr × Parser)
    parse_and zero p = out_of_fuel
    parse_and (suc f) p = do (left, q) ← parse_not f p; and_loop f left q

    pub and_loop : ℕ → Expr → Parser → Result (Expr × Parser)
    and_loop zero left p = out_of_fuel
    and_loop (suc f) left p = elim p.current.kind [
      | TokenKind.and ↦ do (right, q) ← parse_not f (next p); and_loop f (Expr.and left right) q
      | _ ↦ ok (left, p)
    ]

    pub parse_not : ℕ → Parser → Result (Expr × Parser)
    parse_not zero p = out_of_fuel
    parse_not (suc f) p = elim p.current.kind [
      | TokenKind.not ↦ do (inner, q) ← parse_not f (next p); ok (Expr.not inner, q)
      | _ ↦ parse_comparison f p
    ]

    pub parse_comparison : ℕ → Parser → Result (Expr × Parser)
    parse_comparison zero p = out_of_fuel
    parse_comparison (suc f) p = do
      (left, q) ← parse_primary f p
      let right = parse_primary f (next q)
      compare_with (comparison_of q.current.kind) left q right

    pub parse_primary : ℕ → Parser → Result (Expr × Parser)
    parse_primary zero p = out_of_fuel
    parse_primary (suc f) p = elim p.current.kind [
      | TokenKind.bool b ↦ ok (Expr.bool b, next p)
      | TokenKind.int n ↦ ok (Expr.int n, next p)
      | TokenKind.str s ↦ ok (Expr.str s, next p)
      | TokenKind.ident name ↦ parse_ident_or_call f name (next p)
      | TokenKind.count_fact ↦ parse_ident_or_call f (codes "count_fact") (next p)
      | TokenKind.any_fact ↦ parse_ident_or_call f (codes "any_fact") (next p)
      | TokenKind.all_fact ↦ parse_ident_or_call f (codes "all_fact") (next p)
      | TokenKind.duration_gt ↦ parse_ident_or_call f (codes "duration_gt") (next p)
      | TokenKind.lparen ↦ do (e, q) ← parse_expression f (next p); r ← close q; ok (e, r)
      | _ ↦ unexpected p expression
    ]

    pub parse_ident_or_call : ℕ → Text → Parser → Result (Expr × Parser)
    parse_ident_or_call zero name p = out_of_fuel
    parse_ident_or_call (suc f) name p = elim p.current.kind [
      | TokenKind.lparen ↦ do
        (args, q) ← parse_call_args f (next p)
        r ← close q
        e ← build_call is_valid_regex name args
        ok (e, r)
      | _ ↦ ok (plain_identifier name, p)
    ]

    pub parse_call_args : ℕ → Parser → Result (List Expr × Parser)
    parse_call_args zero p = out_of_fuel
    parse_call_args (suc f) p = elim p.current.kind [
      | TokenKind.rparen ↦ ok ([], p)
      | _ ↦ do (e, q) ← parse_expression f p; args_loop f (e ∷ []) q
    ]

    -- The loop of `parse_call_args`; the arguments so far, first to last.
    pub args_loop : ℕ → List Expr → Parser → Result (List Expr × Parser)
    args_loop zero args p = out_of_fuel
    args_loop (suc f) args p = elim p.current.kind [
      | TokenKind.comma ↦ do (e, q) ← parse_expression f (next p); args_loop f (args ++ e ∷ []) q
      | _ ↦ ok (args, p)
    ]

  finish : Expr × Parser → Result Expr
  finish (e, p) = if is_eof p.current.kind then ok e else unexpected p end_of_input

  -- Each token costs at most nine calls.
  unfoldable pub parse : Text → Result Expr
  unfolding finish
  parse input =
      let p = start is_alphanumeric input in parse_expression (9 * (length input) + 20) p >>= finish
