-- ===== src/Rules/Evaluator.antt =====
-- The rule evaluator of crates/enrichment-engine/src/rules/evaluator.rs and the rule models of
-- models/rule.rs. A repository is the function `find_rules`; a confidence is the bits of an `f32`.
pub mod Order
pub mod Output
pub mod Verdict
use bastion.Base.{
  ℕ, ◌+◌, ◌%◌, ◌^◌, Bool, true, false, ◌&&◌, Option, none, some, List, [], ◌∷◌, ◌++◌, if◌then◌else◌,
  Text, text_eq, ◌==◌, codes, filter,
}
use bastion.Base.Int.{ℤ, leb_ℤ}
use bastion.Rules.Expr.{Expr, Result, ok, err, out_of_fuel}
use bastion.Rules.Parser.{parse}
use bastion.Rules.Facts.{OperationResult, Fact, EvalContext, new_context}
use bastion.Rules.Eval.{evaluate}

pub data RuleAction : Type 0 where
  derive_fact : Text → Text → ℕ → RuleAction
  set_verdict : Text → RuleAction
  recommend : Text → RuleAction

pub record RuleConfig : Type 0 where
  pub id : Text
  pub enricher_id : Text
  pub condition : Text
  pub priority : ℤ
  pub enabled : Bool
  pub actions : List RuleAction

pub record RuleOutput : Type 0 where
  pub derived_facts : List Fact
  pub verdict : Option Text
  pub recommendations : List Text
  pub hit_count : ℕ

abbrev pub empty_output : RuleOutput
empty_output = record { derived_facts = []; verdict = none; recommendations = []; hit_count = 0 }

-- `if other.verdict.is_some() { self.verdict = other.verdict; }`.
abbrev pub newer : Option Text → Option Text → Option Text
newer old none = old
newer old (some v) = some v

-- The sum of two `u32`, which wraps around.
abbrev pub add_u32 : ℕ → ℕ → ℕ
add_u32 a b = (a + b) % 2 ^ 32

unfoldable pub merge : RuleOutput → RuleOutput → RuleOutput
merge a b = record {
  derived_facts = a.derived_facts ++ b.derived_facts;
  verdict = newer a.verdict b.verdict;
  recommendations = a.recommendations ++ b.recommendations;
  hit_count = add_u32 a.hit_count b.hit_count;
}

unfoldable pub find_rules : List RuleConfig → Text → List RuleConfig
find_rules rules enricher_id = filter (λ r. r.enricher_id == enricher_id && r.enabled) rules

pub record ParsedRule : Type 0 where
  pub config : RuleConfig
  pub expr : Expr

-- `sort_by_key(|r| r.config.priority)`: the stable sort of the standard library.
insert_rule : ParsedRule → List ParsedRule → List ParsedRule
insert_rule r [] = r ∷ []
insert_rule r (q ∷ qs) =
    let later = q ∷ insert_rule r qs in
    if leb_ℤ r.config.priority q.config.priority then r ∷ q ∷ qs else later

unfoldable pub sort_rules : List ParsedRule → List ParsedRule
unfolding insert_rule
sort_rules [] = []
sort_rules (r ∷ rs) = insert_rule r (sort_rules rs)

unfoldable pub execute_action : RuleAction → RuleOutput → RuleOutput
execute_action (derive_fact key value confidence) o = record o {
  derived_facts =
      o.derived_facts
      ++ record {
        key = key;
        value = value;
        tags = [];
        source_extractor = codes "rule";
        confidence = confidence;
      }
        ∷ [];
}
execute_action (set_verdict v) o = record o { verdict = some v }
execute_action (recommend text) o = record o { recommendations = o.recommendations ++ text ∷ [] }

unfoldable pub execute_all : List RuleAction → RuleOutput → RuleOutput
unfolding execute_action
execute_all [] o = o
execute_all (a ∷ as') o = execute_all as' (execute_action a o)

-- One round of the loop of `evaluate_rules`.
unfoldable pub apply_rule : (Expr → Bool) → ParsedRule → RuleOutput → RuleOutput
unfolding execute_all
apply_rule holds r o =
    if holds r.expr
    then execute_all r.config.actions (record o { hit_count = add_u32 o.hit_count 1 })
    else o

unfoldable pub apply_rules : (Expr → Bool) → List ParsedRule → RuleOutput → RuleOutput
unfolding apply_rule
apply_rules holds [] o = o
apply_rules holds (r ∷ rs) o = apply_rules holds rs (apply_rule holds r o)

unfoldable pub evaluate_rules : (Expr → Bool) → List ParsedRule → RuleOutput
unfolding sort_rules apply_rules
evaluate_rules holds rules = apply_rules holds (sort_rules rules) empty_output

module _ (is_alphanumeric : ℕ → Bool) (is_valid_regex : Text → Bool) where
  abbrev keep_parsed : RuleConfig → Result Expr → List ParsedRule → List ParsedRule
  keep_parsed config (ok e) rest = record { config = config; expr = e } ∷ rest
  keep_parsed config (err e) rest = rest
  keep_parsed config out_of_fuel rest = rest

  -- `get_parsed_rules`, of the rules that the repository found: a rule that does not parse is skipped.
  unfoldable pub parsed_rules : List RuleConfig → List ParsedRule
  parsed_rules [] = []
  parsed_rules (config ∷ configs) =
      keep_parsed config (parse is_alphanumeric is_valid_regex config.condition)
        (parsed_rules configs)

  unfoldable pub evaluate_enricher :
      (Text → Text → Option Bool)
      → (Text → List RuleConfig)
      → Text
      → OperationResult
      → List Fact
      → RuleOutput
  unfolding parsed_rules evaluate_rules
  evaluate_enricher regex repository enricher_id result facts =
      evaluate_rules (evaluate (new_context result facts) regex)
        (parsed_rules (repository enricher_id))
