-- ===== src/Rules/Eval.antt =====
-- `EvalContext::evaluate` and its comparisons, in crates/enrichment-engine/src/rules/ast.rs. The
-- crate `regex` is an argument: the match of a pattern against a text, `none` if the pattern is bad.
pub mod Comparisons
pub mod Predicates
use bastion.Base.{
  ℕ, suc, ◌+◌, Bool, true, false, ◌&&◌, ◌||◌, not, Option, none, some, List, [], ◌∷◌, nat_eq,
  if◌then◌else◌, Text, text_eq, ◌==◌, codes, length, filter, any, all,
}
use bastion.Base.Int.{ℤ, pos, negsuc, ℤ_eq, ltb_ℤ, leb_ℤ, as_i32}
use bastion.Base.Chars.{contains, parse_i32, parse_i64, show_ℕ, show_ℤ}
use bastion.Rules.Expr.{CompOp, Expr}
use bastion.Rules.Facts.{OperationResult, Fact, EvalContext, get_fact}

abbrev or_default {ℓ} : {A : Type ℓ} → A → Option A → A
or_default d none = d
or_default d (some a) = a

abbrev is_some : {A : Type 0} → Option A → Bool
is_some none = false
is_some (some a) = true

abbrev is_empty : Text → Bool
is_empty [] = true
is_empty (c ∷ s) = false

abbrev show_bool : Bool → Text
show_bool true = codes "true"
show_bool false = codes "false"

-- `i64::MIN`.
abbrev i64_min : ℤ
i64_min = negsuc 9223372036854775807

-- `facts.iter().filter(|f| f.key == key)`.
abbrev pub matching : Text → List Fact → List Fact
matching key facts = filter (λ f. f.key == key) facts

abbrev compare_i64 : (ℤ → ℤ → Bool) → Text → Text → Bool
compare_i64 cmp a b = cmp (or_default i64_min (parse_i64 a)) (or_default i64_min (parse_i64 b))

unfoldable pub fact_satisfies_op : Fact → CompOp → Text → Bool
fact_satisfies_op fact CompOp.eq expected = fact.value == expected
fact_satisfies_op fact CompOp.ne expected = not (fact.value == expected)
fact_satisfies_op fact CompOp.gt expected = compare_i64 (λ a b. ltb_ℤ b a) fact.value expected
fact_satisfies_op fact CompOp.lt expected = compare_i64 ltb_ℤ fact.value expected
fact_satisfies_op fact CompOp.ge expected = compare_i64 (λ a b. leb_ℤ b a) fact.value expected
fact_satisfies_op fact CompOp.le expected = compare_i64 leb_ℤ fact.value expected

unfoldable pub compare_count : CompOp → ℤ → ℤ → Bool
compare_count CompOp.eq count n = count == n
compare_count CompOp.ne count n = not (count == n)
compare_count CompOp.gt count n = ltb_ℤ n count
compare_count CompOp.lt count n = ltb_ℤ count n
compare_count CompOp.ge count n = leb_ℤ n count
compare_count CompOp.le count n = leb_ℤ count n

-- `if matching.is_empty() { return false; }`, then the test of the matching facts.
abbrev unless_empty : List Fact → Bool → Bool
unless_empty [] b = false
unless_empty (f ∷ fs) b = b

module _ (ctx : EvalContext) where
  unfoldable pub extract_str : Expr → Text
  extract_str (Expr.str s) = s
  extract_str (Expr.int n) = show_ℤ n
  extract_str (Expr.bool b) = show_bool b
  extract_str (Expr.field name) =
      if name == codes "exit_code"
      then show_ℤ ctx.result.exit_code
      else if name == codes "timed_out"
      then show_bool ctx.result.timed_out
      else if name == codes "stdout"
      then ctx.result.stdout
      else if name == codes "stderr"
      then ctx.result.stderr
      else if name == codes "duration_ms"
      then show_ℕ ctx.result.duration_ms
      else []
  extract_str _ = []

  unfoldable pub extract_i32 : Expr → ℤ
  extract_i32 (Expr.int n) = n
  extract_i32 (Expr.str s) = or_default (pos 0) (parse_i32 s)
  extract_i32 (Expr.field name) =
      if name == codes "exit_code"
      then ctx.result.exit_code
      else if name == codes "duration_ms"
      then as_i32 ctx.result.duration_ms
      else pos 0
  extract_i32 _ = pos 0

  -- `compare_fact_eq`, of the fact that was looked up.
  abbrev fact_eq : Option Fact → Expr → Bool
  fact_eq none right = false
  fact_eq (some fact) right = fact.value == extract_str right

  unfoldable pub compare_eq : Expr → Expr → Bool
  unfolding extract_str
  compare_eq (Expr.fact key) r = fact_eq (get_fact ctx key) r
  compare_eq l r = extract_str l == extract_str r

  -- `compare_fact_cmp`, of the fact that was looked up.
  abbrev fact_cmp : (ℤ → ℤ → Bool) → Option Fact → Expr → Bool
  fact_cmp cmp none right = false
  fact_cmp cmp (some fact) right =
      cmp (or_default (pos 0) (parse_i32 fact.value)) (extract_i32 right)

  -- `compare_gt`, `compare_lt`, `compare_ge` and `compare_le`, which differ in the comparison.
  unfoldable pub compare_by : (ℤ → ℤ → Bool) → Expr → Expr → Bool
  unfolding extract_i32
  compare_by cmp (Expr.fact key) r = fact_cmp cmp (get_fact ctx key) r
  compare_by cmp l r = cmp (extract_i32 l) (extract_i32 r)

  unfoldable pub eval_any_fact : Text → CompOp → Text → Bool
  unfolding fact_satisfies_op
  eval_any_fact key op value =
      unless_empty (matching key ctx.facts)
        (any (λ f. fact_satisfies_op f op value) (matching key ctx.facts))

  unfoldable pub eval_all_fact : Text → CompOp → Text → Bool
  unfolding fact_satisfies_op
  eval_all_fact key op value =
      unless_empty (matching key ctx.facts)
        (all (λ f. fact_satisfies_op f op value) (matching key ctx.facts))

  unfoldable pub eval_count_fact : Text → CompOp → ℤ → Bool
  unfolding compare_count
  eval_count_fact key op n = compare_count op (as_i32 (length (matching key ctx.facts))) n

  -- A field by itself is true if it is not zero, not empty, or true.
  field_holds : Text → Bool
  field_holds name =
      if name == codes "exit_code"
      then not (ctx.result.exit_code == pos 0)
      else if name == codes "timed_out"
      then ctx.result.timed_out
      else if name == codes "stdout"
      then not (is_empty ctx.result.stdout)
      else if name == codes "stderr"
      then not (is_empty ctx.result.stderr)
      else if name == codes "duration_ms"
      then not (as_i32 ctx.result.duration_ms == pos 0)
      else false

  module _ (regex_matches : Text → Text → Option Bool) where
    unfoldable pub evaluate : Expr → Bool
    unfolding field_holds
    evaluate (Expr.bool b) = b
    evaluate (Expr.int n) = not (n == pos 0)
    evaluate (Expr.str s) = not (is_empty s)
    evaluate (Expr.field name) = field_holds name
    evaluate (Expr.eq l r) = compare_eq l r
    evaluate (Expr.ne l r) = not (compare_eq l r)
    evaluate (Expr.gt l r) = compare_by (λ a b. ltb_ℤ b a) l r
    evaluate (Expr.lt l r) = compare_by ltb_ℤ l r
    evaluate (Expr.ge l r) = compare_by (λ a b. leb_ℤ b a) l r
    evaluate (Expr.le l r) = compare_by leb_ℤ l r
    evaluate (Expr.and l r) = evaluate l && evaluate r
    evaluate (Expr.or l r) = evaluate l || evaluate r
    evaluate (Expr.not e) = not (evaluate e)
    evaluate (Expr.contains_fact key) = is_some (get_fact ctx key)
    evaluate (Expr.fact key) = false
    evaluate (Expr.stdout_contains sub) = contains ctx.result.stdout sub
    evaluate (Expr.any_fact key op value) = eval_any_fact key op value
    evaluate (Expr.all_fact key op value) = eval_all_fact key op value
    evaluate (Expr.count_fact key op n) = eval_count_fact key op n
    evaluate (Expr.stderr_contains sub) = contains ctx.result.stderr sub
    evaluate (Expr.stderr_matches pattern) =
        or_default false (regex_matches pattern ctx.result.stderr)
    evaluate (Expr.duration_lt threshold) = ltb_ℤ (as_i32 ctx.result.duration_ms) threshold
    evaluate (Expr.duration_gt threshold) = ltb_ℤ threshold (as_i32 ctx.result.duration_ms)
