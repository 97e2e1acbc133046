-- ===== src/Rules/Parser/Calls.antt =====
-- The `match name` of `parse_ident_or_call` in crates/enrichment-engine/src/rules/ast.rs: a
-- call of a function, or a plain identifier.
pub mod Fueled
use bastion.Base.{
  ℕ, Bool, true, false, List, [], ◌∷◌, if◌then◌else◌, Text, text_eq, ◌==◌, codes, length,
}
use bastion.Base.Int.{ℤ}
use bastion.Rules.Expr.{
  CompOp, Expr, Invalid, arity, not_a_string, not_an_integer, bad_regex, unknown_function,
  unknown_operator, operator_not_a_string, invalid, Result, ok, err, ◌>>=◌,
}

abbrev string_arg : Text → ℕ → Expr → Result Text
string_arg name i (Expr.str s) = ok s
string_arg name i _ = err (invalid (not_a_string name i))

abbrev integer_arg : Text → ℕ → Expr → Result ℤ
integer_arg name i (Expr.int n) = ok n
integer_arg name i _ = err (invalid (not_an_integer name i))

operator_of : Text → Result CompOp
operator_of s =
    if s == codes "=="
    then ok CompOp.eq
    else if s == codes "!="
    then ok CompOp.ne
    else if s == codes ">"
    then ok CompOp.gt
    else if s == codes "<"
    then ok CompOp.lt
    else if s == codes ">="
    then ok CompOp.ge
    else if s == codes "<="
    then ok CompOp.le
    else err (invalid (unknown_operator s))

unfoldable pub parse_comp_op_from_expr : Expr → Result CompOp
unfolding operator_of
parse_comp_op_from_expr (Expr.str s) = operator_of s
parse_comp_op_from_expr _ = err (invalid operator_not_a_string)

-- A function of one string.
abbrev with_string : Text → (Text → Expr) → List Expr → Result Expr
with_string name build (a ∷ []) = do s ← string_arg name 1 a; ok (build s)
with_string name build args = err (invalid (arity name (length args)))

-- A function of one integer.
abbrev with_integer : Text → (ℤ → Expr) → List Expr → Result Expr
with_integer name build (a ∷ []) = do n ← integer_arg name 1 a; ok (build n)
with_integer name build args = err (invalid (arity name (length args)))

-- A field that is written as a call, with no arguments.
abbrev with_nothing : Text → Expr → List Expr → Result Expr
with_nothing name e [] = ok e
with_nothing name e args = err (invalid (arity name (length args)))

-- A key, an operator and a string.
abbrev with_value : Text → (Text → CompOp → Text → Expr) → List Expr → Result Expr
with_value name build (k ∷ o ∷ v ∷ []) = do
  key ← string_arg name 1 k
  op ← parse_comp_op_from_expr o
  value ← string_arg name 3 v
  ok (build key op value)
with_value name build args = err (invalid (arity name (length args)))

-- A key, an operator and a number.
abbrev with_number : Text → (Text → CompOp → ℤ → Expr) → List Expr → Result Expr
with_number name build (k ∷ o ∷ v ∷ []) = do
  key ← string_arg name 1 k
  op ← parse_comp_op_from_expr o
  n ← integer_arg name 3 v
  ok (build key op n)
with_number name build args = err (invalid (arity name (length args)))

module _ (is_valid_regex : Text → Bool) where
  -- `stderr_matches`: the pattern has to compile.
  abbrev checked_regex : Text → Result Expr
  checked_regex s =
      if is_valid_regex s then ok (Expr.stderr_matches s) else err (invalid (bad_regex s))

  abbrev with_regex : Text → List Expr → Result Expr
  with_regex name (a ∷ []) = do s ← string_arg name 1 a; checked_regex s
  with_regex name args = err (invalid (arity name (length args)))

  unfoldable pub build_call : Text → List Expr → Result Expr
  unfolding parse_comp_op_from_expr
  build_call name args =
      if name == codes "contains_fact"
      then with_string name Expr.contains_fact args
      else if name == codes "fact"
      then with_string name Expr.fact args
      else if name == codes "stdout_contains"
      then with_string name Expr.stdout_contains args
      else if name == codes "timed_out"
      then with_nothing name (Expr.field (codes "timed_out")) args
      else if name == codes "exit_code"
      then with_nothing name (Expr.field (codes "exit_code")) args
      else if name == codes "any_fact"
      then with_value name Expr.any_fact args
      else if name == codes "all_fact"
      then with_value name Expr.all_fact args
      else if name == codes "count_fact"
      then with_number name Expr.count_fact args
      else if name == codes "duration_gt"
      then with_integer name Expr.duration_gt args
      else if name == codes "stderr_contains"
      then with_string name Expr.stderr_contains args
      else if name == codes "stderr_matches"
      then with_regex name args
      else if name == codes "duration_lt"
      then with_integer name Expr.duration_lt args
      else err (invalid (unknown_function name))

unfoldable pub plain_identifier : Text → Expr
plain_identifier name =
    if name == codes "exit_code"
    then Expr.field name
    else if name == codes "timed_out"
    then Expr.field name
    else if name == codes "stdout"
    then Expr.field name
    else if name == codes "stderr"
    then Expr.field name
    else if name == codes "duration_ms"
    then Expr.field name
    else Expr.str name
