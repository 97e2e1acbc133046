-- ===== src/Rules/Evaluator/Verdict.antt =====
-- Which rule decides the verdict of `evaluate_rules`, and how many rules the hit count counts, in
-- crates/enrichment-engine/src/rules/evaluator.rs.
use bastion.Base.{
  ◌+◌, ◌%◌, ◌^◌, ◌<◌, ◌≡◌, refl, ◌∙◌, sym, ap, ◌⊎◌, inl, inr, Bool, Option, none, some, List, [],
  ◌∷◌, arith, Bool-cases, All, filter, length, Text,
}
use bastion.Base.Int.{◌≤ℤ◌}
use bastion.Rules.Expr.{Expr}
use bastion.Rules.Evaluator.{
  RuleAction, RuleOutput, ParsedRule, empty_output, newer, add_u32, merge, insert_rule, sort_rules,
  execute_action, execute_all, apply_rule, apply_rules, evaluate_rules, derive_fact, set_verdict,
  recommend,
}
use bastion.Rules.Evaluator.Order.{priority, Ascending, sort_rules-Ascending, All-sort_rules}
use bastion.Rules.Evaluator.Output.{output_of, merged, evaluate_rules-merged}

-- The rule stands in the list.
abbrev pub In : ParsedRule → List ParsedRule → Type 0
In r [] = ⊥
In r (q ∷ qs) = (q ≡ r) ⊎ In r qs

In-insert_rule :
    (r q : ParsedRule) (rs : List ParsedRule) → (q ≡ r) ⊎ In r rs → In r (insert_rule q rs)
unfolding insert_rule
In-insert_rule r q [] h = h
In-insert_rule r q (x ∷ xs) h =
    let later : (q ≡ r) ⊎ In r xs → In r (insert_rule q xs) = In-insert_rule r q xs in
    ground (arith, later)

In-sort_rules : (r : ParsedRule) (rs : List ParsedRule) → In r rs → In r (sort_rules rs)
unfolding sort_rules
In-sort_rules r [] h = elim h [ ]
In-sort_rules r (q ∷ qs) (inl here) = In-insert_rule r q (sort_rules qs) (inl here)
In-sort_rules r (q ∷ qs) (inr there) =
    In-insert_rule r q (sort_rules qs) (inr (In-sort_rules r qs there))

-- The two answers that leave `v` standing before a rule that sets it.
abbrev NoneOr : Text → Option Text → Type 0
NoneOr v o = (o ≡ none) ⊎ (o ≡ some v)

newer-NoneOr : (v : Text) (a b : Option Text) → NoneOr v a → NoneOr v b → NoneOr v (newer a b)
newer-NoneOr v a b h (inl e) = rw (e, newer) h
newer-NoneOr v a b h (inr e) = rw (e, newer) (inr refl)

newer-some : (v : Text) (a b : Option Text) → a ≡ some v → NoneOr v b → newer a b ≡ some v
newer-some v a b h (inl e) = rw (e, newer) h
newer-some v a b h (inr e) = rw (e, newer) refl

newer_right : (v : Text) (a b : Option Text) → b ≡ some v → newer a b ≡ some v
newer_right v a b h = rw (h, newer) refl

module _ (holds : Expr → Bool) where
  -- The verdict that a rule sets: none if its condition fails or no action sets one.
  abbrev pub verdict_of : ParsedRule → Option Text
  verdict_of r = (output_of holds r).verdict

  -- A rule that sets no verdict or the verdict `v`, or that has a smaller number than `r`.
  abbrev pub Yields : ParsedRule → Text → ParsedRule → Type 0
  Yields r v q = NoneOr v (verdict_of q) ⊎ ((priority r ≤ℤ priority q) → ⊥)

  yielded :
      (r : ParsedRule) (v : Text) (q : ParsedRule)
      → priority r ≤ℤ priority q
      → Yields r v q
      → NoneOr v (verdict_of q)
  yielded r v q above (inl h) = h
  yielded r v q above (inr lower) = absurd (lower above)

  later_rules :
      (r : ParsedRule) (v : Text) (rs : List ParsedRule)
      → All (λ q. priority r ≤ℤ priority q) rs
      → All (Yields r v) rs
      → NoneOr v (merged holds rs).verdict
  unfolding merge
  later_rules r v [] above yields = inl refl
  later_rules r v (q ∷ qs) (above, aboves) (yields, rest) =
      newer-NoneOr v (verdict_of q) (merged holds qs).verdict (yielded r v q above yields)
        (later_rules r v qs aboves rest)

  last_wins :
      (r : ParsedRule) (v : Text) (rs : List ParsedRule)
      → Ascending rs
      → In r rs
      → verdict_of r ≡ some v
      → All (Yields r v) rs
      → (merged holds rs).verdict ≡ some v
  unfolding merge
  last_wins r v [] ascending mem sets yields = elim mem [ ]
  last_wins r v (q ∷ qs) (above, ascending) (inl same) sets (yields, rest) =
      newer-some v (verdict_of q) (merged holds qs).verdict (ap verdict_of same ∙ sets)
        (later_rules r v qs (rw (sym same) above) rest)
  last_wins r v (q ∷ qs) (above, ascending) (inr there) sets (yields, rest) =
      newer_right v (verdict_of q) (merged holds qs).verdict
        (last_wins r v qs ascending there sets rest)

  -- If a rule's condition holds and it sets the verdict `v`, and every rule with an equal or greater
  -- priority number sets `v` or nothing, then `v` is the verdict: the greatest number wins.
  pub evaluate_rules-greatest_wins :
      (r : ParsedRule) (v : Text) (rs : List ParsedRule)
      → In r rs
      → verdict_of r ≡ some v
      → All (Yields r v) rs
      → (evaluate_rules holds rs).verdict ≡ some v
  evaluate_rules-greatest_wins r v rs mem sets yields =
      ap (λ o. o.verdict) (evaluate_rules-merged holds rs)
      ∙ last_wins r v (sort_rules rs) (sort_rules-Ascending rs) (In-sort_rules r rs mem) sets
          (All-sort_rules (Yields r v) rs yields)

  execute_all-hits :
      (as' : List RuleAction) (o : RuleOutput) → (execute_all as' o).hit_count ≡ o.hit_count
  unfolding execute_all execute_action
  execute_all-hits [] o = refl
  execute_all-hits (derive_fact k v c ∷ as') o =
      execute_all-hits as' (execute_action (derive_fact k v c) o)
  execute_all-hits (set_verdict v ∷ as') o = execute_all-hits as' (execute_action (set_verdict v) o)
  execute_all-hits (recommend t ∷ as') o = execute_all-hits as' (execute_action (recommend t) o)

  apply_rules-hits :
      (rs : List ParsedRule) (o : RuleOutput)
      → o.hit_count < 2 ^ 32
      → (apply_rules holds rs o).hit_count
        ≡ (o.hit_count + length (filter (λ r. holds r.expr) rs)) % 2 ^ 32
  unfolding apply_rules apply_rule
  apply_rules-hits [] o range = omega (arith, range)
  apply_rules-hits (r ∷ rs) o range = elim (Bool-cases (holds r.expr)) [
    | inl h ↦
        let once = record o { hit_count = add_u32 o.hit_count 1 } in
        let first = execute_all-hits r.config.actions once in
        let small : (execute_all r.config.actions once).hit_count < 2 ^ 32 =
          rw first (omega arith) in
        let rest = apply_rules-hits rs (execute_all r.config.actions once) small in
        rw (apply_rules, apply_rule, h) (omega arith)
    | inr h ↦ rw (apply_rules, apply_rule, h) (apply_rules-hits rs o range)
  ]

  count-insert_rule :
      (p : ParsedRule → Bool) (r : ParsedRule) (rs : List ParsedRule)
      → length (filter p (insert_rule r rs)) ≡ length (filter p (r ∷ rs))
  unfolding insert_rule
  count-insert_rule p r [] = refl
  count-insert_rule p r (q ∷ qs) = ground (arith, count-insert_rule p r qs)

  count-sort_rules :
      (p : ParsedRule → Bool) (rs : List ParsedRule)
      → length (filter p (sort_rules rs)) ≡ length (filter p rs)
  unfolding sort_rules
  count-sort_rules p [] = refl
  count-sort_rules p (r ∷ rs) =
      let inserted = count-insert_rule p r (sort_rules rs) in
      let rest = count-sort_rules p rs in ground (arith, inserted, rest)

  -- The hit count is the number of rules whose condition holds, as a `u32`.
  pub evaluate_rules-hit_count :
      (rs : List ParsedRule)
      → (evaluate_rules holds rs).hit_count ≡ length (filter (λ r. holds r.expr) rs) % 2 ^ 32
  unfolding evaluate_rules
  evaluate_rules-hit_count rs =
      let hits = apply_rules-hits (sort_rules rs) empty_output (omega arith) in
      let sorted = count-sort_rules (λ r. holds r.expr) rs in omega arith
