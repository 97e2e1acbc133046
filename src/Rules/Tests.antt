-- ===== src/Rules/Tests.antt =====
-- Runs of the rule language's operations, and each theorem at a concrete input.
use bastion.Base.{
  ℕ, ◌^◌, ◌≡◌, refl, ◌≢◌, ◌≤◌, ◌<◌, inl, inr, Bool, true, false, ◌||◌, Option, none, some, List, [],
  ◌∷◌, arith, ltb, length, Text, text_eq, codes,
}
use bastion.Base.Int.{ℤ, pos}
use bastion.Base.Chars.{is_ascii_letter, is_ascii_digit, is_whitespace, parse_i32}
use bastion.Rules.Token.{Token}
use bastion.Rules.Lexer.{at, next_token, tokenize, is_eof, skip_whitespace, keyword_kind}
use bastion.Rules.Lexer.Stream.{Spells, next_token_shorter, tokenize-Spells}
use bastion.Rules.Expr.{Expr, ok, err, out_of_fuel, invalid, arity}
use bastion.Rules.Parser.{parse, start, comparison_of, parse_expression}
use bastion.Rules.Parser.Calls.{build_call, plain_identifier}
use bastion.Rules.Parser.Fuel.{parse_total}
use bastion.Rules.Facts.{OperationResult, Fact, EvalContext, new_context}
use bastion.Rules.Eval.{evaluate}
use bastion.Rules.Eval.Comparisons.{duration_exact}
use bastion.Rules.Evaluator.{
  RuleConfig, ParsedRule, set_verdict, sort_rules, evaluate_rules, evaluate_enricher,
}
use bastion.Rules.Evaluator.Output.{merged, evaluate_rules-merged}
use bastion.Rules.Evaluator.Verdict.{verdict_of, Yields, evaluate_rules-greatest_wins}

abbrev ascii : ℕ → Bool
ascii c = is_ascii_letter c || is_ascii_digit c

ascii-letters : (c : ℕ) → is_ascii_letter c ≡ true → ascii c ≡ true
ascii-letters c h = rw h refl

abbrev any_regex : Text → Bool
any_regex s = true

abbrev no_match : Text → Text → Option Bool
no_match p s = none

lexing : Unit {0}
unfolding next_token tokenize skip_whitespace keyword_kind parse_i32
lexing = tt

parsing : Unit {0}
unfolding lexing is_whitespace start bastion.Rules.Parser.advance parse build_call plain_identifier
    comparison_of parse_expression
parsing = tt

parse_tests :
    (parse ascii any_regex (codes "exit_code != 0 and fact('k') == 'v'")
      ≡ ok (
          Expr.and
            (Expr.ne (Expr.field (codes "exit_code")) (Expr.int (pos 0)))
            (Expr.eq (Expr.fact (codes "k")) (Expr.str (codes "v")))))
    × (parse ascii any_regex (codes "fact()") ≡ err (invalid (arity (codes "fact") 0)))
unfolding parsing
parse_tests = (refl, refl)

tokenize-Spells_example :
    (ts : List Token) × (tokenize ascii (at (codes " a>1") 0) ≡ some ts)
    × Spells (codes " a>1") 0 ts
tokenize-Spells_example = tokenize-Spells ascii ascii-letters (at (codes " a>1") 0)

one_token : is_eof (next_token ascii (at (codes "a b") 0)).0.kind ≡ false
unfolding lexing is_whitespace
one_token = refl

next_token_shorter_example : length (next_token ascii (at (codes "a b") 0)).1.rest < 3
next_token_shorter_example = next_token_shorter ascii ascii-letters (at (codes "a b") 0) one_token

parse_total_example : parse ascii any_regex (codes "((not 'a'") ≢ out_of_fuel
parse_total_example = parse_total ascii ascii-letters any_regex (codes "((not 'a'")

-- A run of `ms` milliseconds.
abbrev ran_for : ℕ → OperationResult
ran_for ms = record {
  exit_code = pos 1;
  stdout = codes "out";
  stderr = [];
  duration_ms = ms;
  timed_out = false;
}

abbrev fact_of : Text → Text → Fact
fact_of key value = record {
  key = key;
  value = value;
  tags = [];
  source_extractor = codes "x";
  confidence = 0;
}

abbrev three : List Fact
three =
    fact_of (codes "k") (codes "3")
    ∷ fact_of (codes "j") (codes "1")
    ∷ fact_of (codes "k") (codes "5")
    ∷ []

abbrev context : EvalContext
context = new_context (ran_for 100) three

short_run : (new_context (ran_for 100) three).result.duration_ms < 2 ^ 31
unfolding new_context
short_run = omega arith

duration_exact_example :
    (evaluate context no_match (Expr.duration_gt (pos 50)) ≡ ltb 50 context.result.duration_ms)
    × (evaluate context no_match (Expr.duration_lt (pos 50)) ≡ ltb context.result.duration_ms 50)
duration_exact_example = duration_exact context no_match 50 short_run

abbrev long_context : EvalContext
long_context = new_context (ran_for 2147483648) []

long_run : (2 ^ 31 ≤ long_context.result.duration_ms) × (long_context.result.duration_ms < 2 ^ 32)
unfolding new_context
long_run = (omega arith, omega arith)

abbrev rule_of : ℤ → Text → RuleConfig
rule_of priority verdict = record {
  id = codes "r";
  enricher_id = codes "e";
  condition = codes "true";
  priority = priority;
  enabled = true;
  actions = set_verdict verdict ∷ [];
}

abbrev parsed : ℤ → Text → ParsedRule
parsed priority verdict = record { config = rule_of priority verdict; expr = Expr.bool true }

abbrev rules : List ParsedRule
rules = parsed (pos 9) (codes "x") ∷ parsed (pos 1) (codes "y") ∷ []

abbrev holds : Expr → Bool
holds = evaluate context no_match

evaluate_rules-merged_example : evaluate_rules holds rules ≡ merged holds (sort_rules rules)
evaluate_rules-merged_example = evaluate_rules-merged holds rules

rule_verdicts :
    (verdict_of holds (parsed (pos 9) (codes "x")) ≡ some (codes "x"))
    × (Yields holds (parsed (pos 9) (codes "x")) (codes "x") (parsed (pos 1) (codes "y")))
unfolding evaluate evaluate_rules
rule_verdicts = (refl, inr (λ h. omega arith))

evaluate_rules-greatest_wins_example : (evaluate_rules holds rules).verdict ≡ some (codes "x")
evaluate_rules-greatest_wins_example =
    evaluate_rules-greatest_wins holds (parsed (pos 9) (codes "x")) (codes "x") rules (inl refl)
      rule_verdicts.0 (inl (inr rule_verdicts.0), (rule_verdicts.1, tt))

-- A rule from its condition's text to the verdict.
enricher_test :
    (evaluate_enricher ascii any_regex no_match
      (λ id. rule_of (pos 2) (codes "v") ∷ [])
      (codes "e")
      (ran_for 5)
      three).verdict
    ≡ some (codes "v")
unfolding evaluate_enricher evaluate parsing
enricher_test = refl
