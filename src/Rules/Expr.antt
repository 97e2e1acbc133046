-- ===== src/Rules/Expr.antt =====
-- The syntax trees, operators and errors of crates/enrichment-engine/src/rules/ast.rs. An error keeps
-- the values that its message is about in place of the text.
use bastion.Base.{ℕ, Bool, Text}
use bastion.Base.Int.{ℤ}
use bastion.Rules.Token.{TokenKind}

pub data CompOp : Type 0 where
  eq ne gt lt ge le : CompOp

pub data Expr : Type 0 where
  bool : Bool → Expr
  int : ℤ → Expr
  str field : Text → Expr
  eq ne gt lt ge le : Expr → Expr → Expr
  and or : Expr → Expr → Expr
  not : Expr → Expr
  contains_fact fact stdout_contains : Text → Expr
  any_fact all_fact : Text → CompOp → Text → Expr
  count_fact : Text → CompOp → ℤ → Expr
  stderr_contains stderr_matches : Text → Expr
  duration_lt duration_gt : ℤ → Expr

-- What the parser waited for.
pub data Expected : Type 0 where
  end_of_input expression rparen : Expected

pub data Invalid : Type 0 where
  arity : Text → ℕ → Invalid
  not_a_string : Text → ℕ → Invalid
  not_an_integer : Text → ℕ → Invalid
  bad_regex : Text → Invalid
  unknown_function unknown_operator : Text → Invalid
  operator_not_a_string : Invalid

pub data ParseError : Type 0 where
  unexpected_token : ℕ → Expected → TokenKind → ParseError
  unterminated_string : ℕ → ParseError
  invalid : Invalid → ParseError

-- `Result<T, ParseError>`; `out_of_fuel` has no counterpart in the source.
pub data Result {ℓ} (A : Type ℓ) : Type ℓ where
  ok : A → Result A
  err : ParseError → Result A
  out_of_fuel : Result A

infixl 5 ◌>>=◌
abbrev pub ◌>>=◌ {ℓ κ} : {A : Type ℓ} {B : Type κ} → Result A → (A → Result B) → Result B
ok a >>= f = f a
err e >>= f = err e
out_of_fuel >>= f = out_of_fuel
