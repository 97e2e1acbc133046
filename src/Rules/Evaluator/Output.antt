-- ===== src/Rules/Evaluator/Output.antt =====
-- What `evaluate_rules` of crates/enrichment-engine/src/rules/evaluator.rs returns, as one fold over
-- the rules that hold.
use mathlib.Core.List.{append_assoc, append-nil}
use bastion.Base.{
  ℕ, ◌^◌, ◌<◌, ◌≡◌, refl, ◌∙◌, sym, inl, inr, Bool, Option, none, some, List, [], ◌∷◌, arith,
  Bool-cases, ap, Text,
}
use bastion.Rules.Expr.{Expr}
use bastion.Rules.Evaluator.{
  RuleAction, RuleOutput, ParsedRule, empty_output, newer, add_u32, merge, sort_rules,
  execute_action, execute_all, apply_rule, apply_rules, evaluate_rules, derive_fact, set_verdict,
  recommend,
}

-- What a rule adds by itself.
abbrev pub output_of : (Expr → Bool) → ParsedRule → RuleOutput
output_of holds r = apply_rule holds r empty_output

-- The outputs of the rules, merged in their order.
abbrev pub merged : (Expr → Bool) → List ParsedRule → RuleOutput
merged holds [] = empty_output
merged holds (r ∷ rs) = merge (output_of holds r) (merged holds rs)

newer_assoc : (a b c : Option Text) → newer (newer a b) c ≡ newer a (newer b c)
newer_assoc a b none = refl
newer_assoc a b (some v) = refl

hits_assoc : (a b c : ℕ) → add_u32 (add_u32 a b) c ≡ add_u32 a (add_u32 b c)
hits_assoc a b c = omega arith

merge_assoc : (a b c : RuleOutput) → merge (merge a b) c ≡ merge a (merge b c)
unfolding merge
merge_assoc a b c =
    rw
      (
        append_assoc a.derived_facts b.derived_facts c.derived_facts,
        append_assoc a.recommendations b.recommendations c.recommendations,
        newer_assoc a.verdict b.verdict c.verdict,
        hits_assoc a.hit_count b.hit_count c.hit_count,
      )
      refl

-- The number of hits is a `u32`.
abbrev InRange : RuleOutput → Type 0
InRange o = o.hit_count < 2 ^ 32

merge_empty : (a : RuleOutput) → InRange a → merge a empty_output ≡ a
unfolding merge
merge_empty a h =
    let hits : add_u32 a.hit_count 0 ≡ a.hit_count = omega (arith, h) in
    rw (append-nil a.derived_facts, append-nil a.recommendations, hits) refl

merge-InRange : (a b : RuleOutput) → InRange (merge a b)
unfolding merge
merge-InRange a b = omega arith

merged-InRange : (holds : Expr → Bool) (rs : List ParsedRule) → InRange (merged holds rs)
merged-InRange holds [] = omega arith
merged-InRange holds (r ∷ rs) = merge-InRange (output_of holds r) (merged holds rs)

newer-none : (a : Option Text) → newer none a ≡ a
newer-none none = refl
newer-none (some v) = refl

empty_merge : (a : RuleOutput) → InRange a → merge empty_output a ≡ a
unfolding merge
empty_merge a h =
    let hits : add_u32 0 a.hit_count ≡ a.hit_count = omega (arith, h) in
    rw (newer-none a.verdict, hits) refl

execute_action-merge :
    (a : RuleAction) (o p : RuleOutput)
    → execute_action a (merge o p) ≡ merge o (execute_action a p)
unfolding execute_action merge
execute_action-merge (derive_fact k v c) o p =
    rw (append_assoc o.derived_facts p.derived_facts) refl
execute_action-merge (set_verdict v) o p = refl
execute_action-merge (recommend t) o p =
    rw (append_assoc o.recommendations p.recommendations (t ∷ [])) refl

execute_all-merge :
    (as' : List RuleAction) (o p : RuleOutput)
    → execute_all as' (merge o p) ≡ merge o (execute_all as' p)
unfolding execute_all
execute_all-merge [] o p = refl
execute_all-merge (a ∷ as') o p =
    ap (execute_all as') (execute_action-merge a o p) ∙ execute_all-merge as' o (execute_action a p)

abbrev one_hit : RuleOutput
one_hit = record empty_output { hit_count = 1 }

merge-one_hit : (o : RuleOutput) → merge o one_hit ≡ record o { hit_count = add_u32 o.hit_count 1 }
unfolding merge
merge-one_hit o = rw (append-nil o.derived_facts, append-nil o.recommendations) refl

apply_rule-merge :
    (holds : Expr → Bool) (r : ParsedRule) (o : RuleOutput)
    → InRange o
    → apply_rule holds r o ≡ merge o (output_of holds r)
unfolding apply_rule
apply_rule-merge holds r o range = elim (Bool-cases (holds r.expr)) [
  | inl h ↦
      rw (apply_rule, h)
        (ap (execute_all r.config.actions) (sym (merge-one_hit o))
          ∙ execute_all-merge r.config.actions o one_hit)
  | inr h ↦ rw (apply_rule, h) (sym (merge_empty o range))
]

apply_rules-merge :
    (holds : Expr → Bool) (rs : List ParsedRule) (o : RuleOutput)
    → InRange o
    → apply_rules holds rs o ≡ merge o (merged holds rs)
unfolding apply_rules
apply_rules-merge holds [] o h = sym (merge_empty o h)
apply_rules-merge holds (r ∷ rs) o h =
    let one = apply_rule-merge holds r o h in
    let range : InRange (apply_rule holds r o) = rw one (merge-InRange o (output_of holds r)) in
    apply_rules-merge holds rs (apply_rule holds r o) range
    ∙ ap (λ x. merge x (merged holds rs)) one
    ∙ merge_assoc o (output_of holds r) (merged holds rs)

-- The output of the evaluator is the merge, by ascending priority number, of what each rule gives by
-- itself: the accumulated output of the loop does not leak into a rule.
pub evaluate_rules-merged :
    (holds : Expr → Bool) (rs : List ParsedRule)
    → evaluate_rules holds rs ≡ merged holds (sort_rules rs)
unfolding evaluate_rules
evaluate_rules-merged holds rs =
    apply_rules-merge holds (sort_rules rs) empty_output (omega arith)
    ∙ empty_merge (merged holds (sort_rules rs)) (merged-InRange holds (sort_rules rs))
