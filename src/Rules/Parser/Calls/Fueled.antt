-- ===== src/Rules/Parser/Calls/Fueled.antt =====
-- The fuel of building a call, in crates/enrichment-engine/src/rules/ast.rs.
use bastion.Base.{ℕ, Bool, true, false, List, [], ◌∷◌, if◌then◌else◌, Text, text_eq, ◌==◌, codes}
use bastion.Base.Int.{ℤ}
use bastion.Rules.Expr.{Expr, CompOp, ParseError, Result, ok, err, ◌>>=◌}
use bastion.Rules.Parser.Calls.{
  build_call, string_arg, integer_arg, operator_of, parse_comp_op_from_expr, with_string,
  with_integer, with_nothing, with_value, with_number, with_regex,
}

-- A result that is no lack of fuel.
pub data Fueled {ℓ} {A : Type ℓ} : Result A → Type ℓ where
  done : {a : A} → Fueled (ok a)
  failed : {e : ParseError} → Fueled (err e)

pub Fueled-bind {ℓ κ} :
    {A : Type ℓ} {B : Type κ} {r : Result A} {f : A → Result B}
    → Fueled r
    → ((a : A) → Fueled (f a))
    → Fueled (r >>= f)
Fueled-bind (done {a}) k = k a
Fueled-bind failed k = failed

pub Fueled-if {ℓ} :
    {A : Type ℓ} (b : Bool) {x y : Result A} → Fueled x → Fueled y → Fueled (if b then x else y)
Fueled-if true hx hy = hx
Fueled-if false hx hy = hy

string_arg-Fueled : (name : Text) (i : ℕ) (e : Expr) → Fueled (string_arg name i e)
string_arg-Fueled name i (Expr.str s) = done
string_arg-Fueled name i _ = failed

integer_arg-Fueled : (name : Text) (i : ℕ) (e : Expr) → Fueled (integer_arg name i e)
integer_arg-Fueled name i (Expr.int n) = done
integer_arg-Fueled name i _ = failed

operator_of-Fueled : (s : Text) → Fueled (operator_of s)
unfolding operator_of
operator_of-Fueled s = Fueled-if (s == codes "==") done (
    Fueled-if (s == codes "!=") done (
      Fueled-if (s == codes ">") done (
        Fueled-if (s == codes "<") done
          (Fueled-if (s == codes ">=") done (Fueled-if (s == codes "<=") done failed)))))

operator-Fueled : (e : Expr) → Fueled (parse_comp_op_from_expr e)
unfolding parse_comp_op_from_expr
operator-Fueled (Expr.str s) = operator_of-Fueled s
operator-Fueled _ = failed

with_string-Fueled :
    (name : Text) (b : Text → Expr) (args : List Expr) → Fueled (with_string name b args)
with_string-Fueled name b [] = failed
with_string-Fueled name b (a ∷ []) = Fueled-bind (string_arg-Fueled name 1 a) (λ s. done)
with_string-Fueled name b (a ∷ a' ∷ args) = failed

with_integer-Fueled :
    (name : Text) (b : ℤ → Expr) (args : List Expr) → Fueled (with_integer name b args)
with_integer-Fueled name b [] = failed
with_integer-Fueled name b (a ∷ []) = Fueled-bind (integer_arg-Fueled name 1 a) (λ n. done)
with_integer-Fueled name b (a ∷ a' ∷ args) = failed

with_nothing-Fueled :
    (name : Text) (e : Expr) (args : List Expr) → Fueled (with_nothing name e args)
with_nothing-Fueled name e [] = done
with_nothing-Fueled name e (a ∷ args) = failed

module _ (name : Text) where
  with_value-Fueled :
      (b : Text → CompOp → Text → Expr) (args : List Expr) → Fueled (with_value name b args)
  with_value-Fueled b (k ∷ o ∷ v ∷ []) = Fueled-bind (string_arg-Fueled name 1 k) (λ key.
      Fueled-bind (operator-Fueled o) (λ op. Fueled-bind (string_arg-Fueled name 3 v) (λ w. done)))
  with_value-Fueled b [] = failed
  with_value-Fueled b (k ∷ []) = failed
  with_value-Fueled b (k ∷ o ∷ []) = failed
  with_value-Fueled b (k ∷ o ∷ v ∷ a ∷ args) = failed

  with_number-Fueled :
      (b : Text → CompOp → ℤ → Expr) (args : List Expr) → Fueled (with_number name b args)
  with_number-Fueled b (k ∷ o ∷ v ∷ []) = Fueled-bind (string_arg-Fueled name 1 k) (λ key.
      Fueled-bind (operator-Fueled o) (λ op. Fueled-bind (integer_arg-Fueled name 3 v) (λ n. done)))
  with_number-Fueled b [] = failed
  with_number-Fueled b (k ∷ []) = failed
  with_number-Fueled b (k ∷ o ∷ []) = failed
  with_number-Fueled b (k ∷ o ∷ v ∷ a ∷ args) = failed

  with_regex-Fueled : (valid : Text → Bool) (args : List Expr) → Fueled (with_regex valid name args)
  with_regex-Fueled valid [] = failed
  with_regex-Fueled valid (a ∷ []) =
      Fueled-bind (string_arg-Fueled name 1 a) (λ s. Fueled-if (valid s) done failed)
  with_regex-Fueled valid (a ∷ a' ∷ args) = failed

  pub build_call-Fueled :
      (valid : Text → Bool) (args : List Expr) → Fueled (build_call valid name args)
  unfolding build_call
  build_call-Fueled valid args =
      Fueled-if (name == codes "contains_fact") (with_string-Fueled name _ args) (
        Fueled-if (name == codes "fact") (with_string-Fueled name _ args) (
          Fueled-if (name == codes "stdout_contains") (with_string-Fueled name _ args) (
            Fueled-if (name == codes "timed_out") (with_nothing-Fueled name _ args) (
              Fueled-if (name == codes "exit_code") (with_nothing-Fueled name _ args) (
                Fueled-if (name == codes "any_fact") (with_value-Fueled _ args) (
                  Fueled-if (name == codes "all_fact") (with_value-Fueled _ args) (
                    Fueled-if (name == codes "count_fact") (with_number-Fueled _ args) (
                      Fueled-if (name == codes "duration_gt") (with_integer-Fueled name _ args) (
                        Fueled-if (name == codes "stderr_contains") (with_string-Fueled name _ args)
                          (Fueled-if (name == codes "stderr_matches") (with_regex-Fueled valid args)
                            (Fueled-if (name == codes "duration_lt")
                              (with_integer-Fueled name _ args) failed)))))))))))
