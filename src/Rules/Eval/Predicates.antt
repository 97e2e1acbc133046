-- ===== src/Rules/Eval/Predicates.antt =====
-- How `any_fact`, `all_fact`, `count_fact`, `contains_fact` and `fact` relate, in
-- crates/enrichment-engine/src/rules/ast.rs.
use bastion.Base.{
  ◌^◌, ◌<◌, ◌≡◌, refl, Bool, true, false, not, ◌&&◌, Option, none, some, List, [], ◌∷◌, arith, Text,
  text_eq, ◌==◌, length, any, all,
}
use bastion.Base.Int.{ℤ, pos, ltb_ℤ, leb_ℤ, as_i32_pos}
use bastion.Base.Chars.{parse_i64}
use bastion.Rules.Expr.{CompOp, Expr}
use bastion.Rules.Facts.{OperationResult, Fact, new_context}
use bastion.Rules.Facts.FirstFact.{first_fact, get_fact-first}
use bastion.Rules.Eval.{
  matching, fact_satisfies_op, compare_count, unless_empty, is_some, eval_any_fact, eval_all_fact,
  eval_count_fact, evaluate, compare_eq, or_default, i64_min,
}

-- The operator that holds exactly where the other does not.
abbrev pub complement : CompOp → CompOp
complement CompOp.eq = CompOp.ne
complement CompOp.ne = CompOp.eq
complement CompOp.gt = CompOp.le
complement CompOp.lt = CompOp.ge
complement CompOp.ge = CompOp.lt
complement CompOp.le = CompOp.gt

not-not : (b : Bool) → b ≡ not (not b)
not-not true = refl
not-not false = refl

le-not_gt : (a b : ℤ) → leb_ℤ a b ≡ not (ltb_ℤ b a)
le-not_gt a b = ground arith

gt-not_le : (a b : ℤ) → ltb_ℤ b a ≡ not (leb_ℤ a b)
gt-not_le a b = ground arith

abbrev read_i64 : Text → ℤ
read_i64 s = or_default i64_min (parse_i64 s)

abbrev fact_eq_text : Option Fact → Text → Bool
fact_eq_text none value = false
fact_eq_text (some fact) value = fact.value == value

satisfies-complement :
    (f : Fact) (op : CompOp) (value : Text)
    → fact_satisfies_op f op value ≡ not (fact_satisfies_op f (complement op) value)
unfolding fact_satisfies_op
satisfies-complement f CompOp.eq value = not-not _
satisfies-complement f CompOp.ne value = refl
satisfies-complement f CompOp.gt value = gt-not_le (read_i64 f.value) (read_i64 value)
satisfies-complement f CompOp.lt value = gt-not_le (read_i64 value) (read_i64 f.value)
satisfies-complement f CompOp.ge value = le-not_gt (read_i64 value) (read_i64 f.value)
satisfies-complement f CompOp.le value = le-not_gt (read_i64 f.value) (read_i64 value)

all-not_any :
    (op : CompOp) (value : Text) (fs : List Fact)
    → all (λ f. fact_satisfies_op f op value) fs
      ≡ not (any (λ f. fact_satisfies_op f (complement op) value) fs)
all-not_any op value [] = refl
all-not_any op value (f ∷ fs) =
    ground (arith, satisfies-complement f op value, all-not_any op value fs)

matching-first :
    (key : Text) (facts : List Fact)
    → is_some (first_fact key facts) ≡ unless_empty (matching key facts) true
matching-first key [] = refl
matching-first key (f ∷ facts) = ground (arith, matching-first key facts)

first-any :
    (key value : Text) (facts : List Fact)
    → fact_eq_text (first_fact key facts) value ≡ true
    → unless_empty
        (matching key facts)
        (any (λ f. fact_satisfies_op f CompOp.eq value) (matching key facts))
      ≡ true
unfolding fact_satisfies_op
first-any key value [] h = cc
first-any key value (f ∷ facts) h = ground (arith, first-any key value facts)

first-all :
    (key value : Text) (facts : List Fact)
    → unless_empty
        (matching key facts)
        (all (λ f. fact_satisfies_op f CompOp.eq value) (matching key facts))
      ≡ true
    → fact_eq_text (first_fact key facts) value ≡ true
unfolding fact_satisfies_op
first-all key value [] h = cc
first-all key value (f ∷ facts) h = ground (arith, first-all key value facts)

at_least_one : (fs : List Fact) → leb_ℤ (pos 1) (pos (length fs)) ≡ unless_empty fs true
at_least_one [] = refl
at_least_one (f ∷ fs) = ground arith

module _ (result : OperationResult) (facts : List Fact) (regex : Text → Text → Option Bool) where
  contains-matching :
      (key : Text)
      → evaluate (new_context result facts) regex (Expr.contains_fact key)
        ≡ unless_empty (matching key facts) true
  unfolding evaluate
  contains-matching key = rw (get_fact-first result facts key) (matching-first key facts)

  -- `all_fact` with an operator is: there is such a fact, and no fact satisfies the complement.
  pub all_fact-not_any :
      (key : Text) (op : CompOp) (value : Text)
      → evaluate (new_context result facts) regex (Expr.all_fact key op value) ≡ (
          evaluate (new_context result facts) regex (Expr.contains_fact key)
          && not
              (evaluate (new_context result facts) regex (Expr.any_fact key (complement op) value)))
  unfolding evaluate eval_any_fact eval_all_fact new_context
  all_fact-not_any key op value =
      ground (arith, contains-matching key, all-not_any op value (matching key facts))

  -- A fact that equals a text, as `fact(k) == v` looks it up, is one that `any_fact` finds; and if
  -- all facts with the key equal the text then so does the one that is looked up.
  pub fact_eq-any_all :
      (key value : Text)
      → (evaluate (new_context result facts) regex (Expr.eq (Expr.fact key) (Expr.str value)) ≡ true
          → evaluate (new_context result facts) regex (Expr.any_fact key CompOp.eq value) ≡ true)
        × (evaluate (new_context result facts) regex (Expr.all_fact key CompOp.eq value) ≡ true
            → evaluate (new_context result facts) regex (Expr.eq (Expr.fact key) (Expr.str value))
              ≡ true)
  unfolding evaluate eval_any_fact eval_all_fact new_context compare_eq fact_satisfies_op
  fact_eq-any_all key value =
      ground (
        arith,
        get_fact-first result facts key,
        first-any key value facts,
        first-all key value facts,
      )

  -- Below 2^31 facts with the key, `count_fact` compares their number as it is.
  pub count_fact_exact :
      (key : Text) (op : CompOp) (n : ℤ)
      → length (matching key facts) < 2 ^ 31
      → evaluate (new_context result facts) regex (Expr.count_fact key op n)
        ≡ compare_count op (pos (length (matching key facts))) n
  unfolding evaluate eval_count_fact new_context
  count_fact_exact key op n h = rw (as_i32_pos (length (matching key facts)) h)

  -- So `count_fact(k, '>=', 1)` is `contains_fact(k)`.
  pub count_fact-contains :
      (key : Text)
      → length (matching key facts) < 2 ^ 31
      → evaluate (new_context result facts) regex (Expr.count_fact key CompOp.ge (pos 1))
        ≡ evaluate (new_context result facts) regex (Expr.contains_fact key)
  unfolding compare_count
  count_fact-contains key h =
      rw (count_fact_exact key CompOp.ge (pos 1) h, contains-matching key)
        (at_least_one (matching key facts))
