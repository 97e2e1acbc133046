-- ===== src/Catalog/Shim.antt =====
-- Checks as conditions of the rules: `TomlCheck::to_cel_condition` of
-- crates/bastion-infrastructure/src/catalog/toml_assertion_parser.rs, and the comparison of both
-- evaluations, crates/bastion-infrastructure/src/evaluation/legacy_cel_shim.rs. The arguments are those
-- of the parser, of the evaluator and of the checks.

pub mod Laws
pub mod Triggers
use bastion.Base.{
  ℕ, suc, ◌-◌, ◌^◌, Bool, true, false, Option, none, some, List, [], ◌∷◌, ◌++◌, nat_eq,
  if◌then◌else◌, Text, codes,
}
use bastion.Base.Int.{ℤ, pos, negsuc, as_i32}
use bastion.Base.Chars.{show_ℕ, show_ℤ}
use bastion.Rules.Expr.{Expr, Result, ParseError}
use bastion.Rules.Parser.{parse}
use bastion.Rules.Facts.{OperationResult, Fact, new_context}
use bastion.Rules.Eval.{evaluate}
use bastion.Catalog.Experience.{ExperienceRecord, ExperienceStatus, duration_ms}
use bastion.Catalog.Assertion.{AssertionCheck, evaluate_check}

-- `s.replace(c, to)` for a character.
abbrev replace : ℕ → Text → Text → Text
replace c to [] = []
replace c to (d ∷ s) = (if nat_eq d c then to else d ∷ []) ++ replace c to s

unfoldable pub escape_cel_string : Text → Text
escape_cel_string s = replace b'\'' (b'\\' ∷ b'\'' ∷ []) (replace b'\\' (b'\\' ∷ b'\\' ∷ []) s)

abbrev pub call_of : Text → Text → Text
unfolding escape_cel_string
call_of name s = name ++ codes "('" ++ escape_cel_string s ++ codes "')"

unfoldable pub to_cel_condition : AssertionCheck → Option Text
unfolding escape_cel_string
to_cel_condition (AssertionCheck.exit_code n) = some (codes "exit_code == " ++ show_ℤ n)
to_cel_condition (AssertionCheck.stdout_contains s) =
    some (codes "stdout_contains('" ++ escape_cel_string s ++ codes "')")
to_cel_condition (AssertionCheck.stderr_contains s) =
    some (codes "stderr_contains('" ++ escape_cel_string s ++ codes "')")
to_cel_condition (AssertionCheck.stdout_matches s) =
    some (codes "stdout_matches('" ++ escape_cel_string s ++ codes "')")
to_cel_condition AssertionCheck.sandbox_alive = none
to_cel_condition (AssertionCheck.command_duration ms) =
    some (codes "duration_lt(" ++ show_ℕ ms ++ codes ")")

pub data ShimError : Type 0 where
  cel_parse : ParseError → ShimError
  legacy_eval : Text → ShimError
  result_mismatch : Bool → Bool → ShimError
  no_cel_condition : ShimError

-- `Result<T, ShimError>`; `out_of_fuel` is that of the parser.
pub data ShimResult (A : Type 0) : Type 0 where
  ok : A → ShimResult A
  err : ShimError → ShimResult A
  out_of_fuel : ShimResult A

pub record ComparisonResult : Type 0 where
  pub legacy_passed : Bool
  pub cel_passed : Bool
  pub legacy_reason : Option Text
  pub matches : Bool

abbrev code_or_zero : Option ℤ → ℤ
code_or_zero none = pos 0
code_or_zero (some n) = n

-- `record.duration_ms().map(|d| d as i32).unwrap_or(i32::MAX)`.
abbrev duration_i32 : Option ℕ → ℤ
duration_i32 none = pos (2 ^ 31 - 1)
duration_i32 (some d) = as_i32 d

-- `n as u64` of an `i32`.
abbrev as_u64 : ℤ → ℕ
as_u64 (pos n) = n
as_u64 (negsuc n) = 2 ^ 64 - suc n

abbrev is_timeout : ExperienceStatus → Bool
is_timeout ExperienceStatus.timeout = true
is_timeout _ = false

unfoldable pub operation_of : ExperienceRecord → OperationResult
unfolding duration_ms
operation_of r = record {
  exit_code = code_or_zero r.exit_code;
  stdout = r.stdout_summary;
  stderr = r.stderr_summary;
  duration_ms = as_u64 (duration_i32 (duration_ms r));
  timed_out = is_timeout r.status;
}

module _ (is_alphanumeric : ℕ → Bool) (is_valid_regex : Text → Bool)
    (regex : Text → Text → Option Bool) where
  abbrev eval_parsed : ExperienceRecord → List Fact → Result Expr → ShimResult Bool
  eval_parsed r facts (Result.ok e) =
      ShimResult.ok (evaluate (new_context (operation_of r) facts) regex e)
  eval_parsed r facts (Result.err e) = ShimResult.err (cel_parse e)
  eval_parsed r facts Result.out_of_fuel = ShimResult.out_of_fuel

  unfoldable pub eval_cel_on_record_with_facts :
      ExperienceRecord → List Fact → Text → ShimResult Bool
  unfolding operation_of
  eval_cel_on_record_with_facts r facts condition =
      eval_parsed r facts (parse is_alphanumeric is_valid_regex condition)

  unfoldable pub eval_cel_on_record : ExperienceRecord → Text → ShimResult Bool
  unfolding eval_cel_on_record_with_facts
  eval_cel_on_record r condition = eval_cel_on_record_with_facts r [] condition

  abbrev pub same : Bool → Bool → Bool
  same true b = b
  same false true = false
  same false false = true

  abbrev pub compare : Bool × Option Text → ShimResult Bool → ShimResult ComparisonResult
  compare (legacy, reason) (ShimResult.ok cel) = ShimResult.ok (record {
    legacy_passed = legacy;
    cel_passed = cel;
    legacy_reason = reason;
    matches = same legacy cel;
  })
  compare _ (ShimResult.err e) = ShimResult.err e
  compare _ ShimResult.out_of_fuel = ShimResult.out_of_fuel

  module _ (debug : Text → Text) where
    abbrev compare_on :
        AssertionCheck → ExperienceRecord → Option Text → ShimResult ComparisonResult
    compare_on check r none = ShimResult.err no_cel_condition
    compare_on check r (some condition) =
        compare (evaluate_check debug check r) (eval_cel_on_record r condition)

    unfoldable pub evaluate_toml_check :
        AssertionCheck → ExperienceRecord → ShimResult ComparisonResult
    unfolding to_cel_condition eval_cel_on_record
    evaluate_toml_check check r = compare_on check r (to_cel_condition check)

    abbrev compare_with :
        Bool × Option Text → ExperienceRecord → Option Text → ShimResult ComparisonResult
    compare_with (legacy, reason) r none = ShimResult.ok (record {
      legacy_passed = legacy;
      cel_passed = legacy;
      legacy_reason = reason;
      matches = true;
    })
    compare_with legacy r (some condition) = compare legacy (eval_cel_on_record r condition)

    unfoldable pub evaluate_assertion_check_with_cel :
        AssertionCheck → ExperienceRecord → Option Text → ShimResult ComparisonResult
    unfolding eval_cel_on_record
    evaluate_assertion_check_with_cel check r condition =
        compare_with (evaluate_check debug check r) r condition
