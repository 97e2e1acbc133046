-- ===== src/Rules/Eval/Comparisons.antt =====
-- How the comparisons of a condition relate, and what the cast of a duration does to them, in
-- crates/enrichment-engine/src/rules/ast.rs.
use bastion.Base.{
  ℕ, ◌^◌, ◌≤◌, ◌<◌, ◌≡◌, refl, Bool, true, false, not, Option, none, arith, ltb, Text,
}
use bastion.Base.Int.{ℤ, pos, ltb_ℤ, leb_ℤ, as_i32_pos, as_i32_wraps}
use bastion.Rules.Expr.{Expr}
use bastion.Rules.Facts.{EvalContext, get_fact}
use bastion.Rules.Eval.{compare_eq, compare_by, evaluate, extract_i32}

abbrev pub is_fact : Expr → Bool
is_fact (Expr.fact key) = true
is_fact _ = false

lt-not_ge : (a b : ℤ) → ltb_ℤ a b ≡ not (leb_ℤ b a)
lt-not_ge a b = ground arith

compare_by-other :
    (ctx : EvalContext) (cmp : ℤ → ℤ → Bool) (l r : Expr)
    → is_fact l ≡ false
    → compare_by ctx cmp l r ≡ cmp (extract_i32 ctx l) (extract_i32 ctx r)
unfolding compare_by
compare_by-other ctx cmp (Expr.fact key) r h = cc
compare_by-other ctx cmp _ r h = refl

module _ (ctx : EvalContext) (regex : Text → Text → Option Bool) where
  -- Unless the left side is a fact, `<` is the negation of `>=`, `>` that of `<=`, and `>=` and `<=`
  -- both hold exactly of equal numbers.
  pub order_complements :
      (l r : Expr)
      → is_fact l ≡ false
      → (evaluate ctx regex (Expr.lt l r) ≡ not (evaluate ctx regex (Expr.ge l r)))
        × (evaluate ctx regex (Expr.gt l r) ≡ not (evaluate ctx regex (Expr.le l r)))
        × (evaluate ctx regex (Expr.ge l r) ≡ true
            → evaluate ctx regex (Expr.le l r) ≡ true
            → extract_i32 ctx l ≡ extract_i32 ctx r)
  unfolding evaluate
  order_complements l r h =
      let a = extract_i32 ctx l in
      let b = extract_i32 ctx r in
      rw
        (
          compare_by-other ctx ltb_ℤ l r h,
          compare_by-other ctx leb_ℤ l r h,
          compare_by-other ctx (λ x y. ltb_ℤ y x) l r h,
          compare_by-other ctx (λ x y. leb_ℤ y x) l r h,
        )
        (lt-not_ge a b, lt-not_ge b a, λ p q. ground arith)

  -- Where no fact has the key, every comparison of the fact is false but `!=`, which is true: there
  -- `not (fact(k) > e)` holds and `fact(k) <= e` does not.
  pub missing_fact :
      (key : Text) (r : Expr)
      → get_fact ctx key ≡ none
      → (evaluate ctx regex (Expr.eq (Expr.fact key) r) ≡ false)
        × (evaluate ctx regex (Expr.ne (Expr.fact key) r) ≡ true)
        × (evaluate ctx regex (Expr.lt (Expr.fact key) r) ≡ false)
        × (evaluate ctx regex (Expr.le (Expr.fact key) r) ≡ false)
        × (evaluate ctx regex (Expr.not (Expr.gt (Expr.fact key) r)) ≡ true)
        × (evaluate ctx regex (Expr.not (Expr.ge (Expr.fact key) r)) ≡ true)
  unfolding evaluate compare_eq compare_by
  missing_fact key r h = rw h (refl, refl, refl, refl, refl, refl)

  -- A duration below 2^31 milliseconds is compared as it is.
  pub duration_exact :
      (n : ℕ)
      → ctx.result.duration_ms < 2 ^ 31
      → (evaluate ctx regex (Expr.duration_gt (pos n)) ≡ ltb n ctx.result.duration_ms)
        × (evaluate ctx regex (Expr.duration_lt (pos n)) ≡ ltb ctx.result.duration_ms n)
  unfolding evaluate
  duration_exact n h = rw (as_i32_pos ctx.result.duration_ms h) (ground arith)

  -- From 2^31 to 2^32 milliseconds the cast to `i32` is negative: `duration_gt` fails for every
  -- threshold that can be written, and `duration_lt` holds for every one.
  pub duration_wraps :
      (n : ℕ)
      → 2 ^ 31 ≤ ctx.result.duration_ms
      → ctx.result.duration_ms < 2 ^ 32
      → (evaluate ctx regex (Expr.duration_gt (pos n)) ≡ false)
        × (evaluate ctx regex (Expr.duration_lt (pos n)) ≡ true)
  unfolding evaluate
  duration_wraps n h k = rw (as_i32_wraps ctx.result.duration_ms h k) (ground arith)
