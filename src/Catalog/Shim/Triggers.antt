-- ===== src/Catalog/Shim/Triggers.antt =====
-- The comparison for doctors and for triggers of advice, in
-- crates/bastion-infrastructure/src/evaluation/legacy_cel_shim.rs. The registry is the function that
-- finds an assertion.
use bastion.Base.{ℕ, Bool, true, false, Option, none, some, List, [], ◌∷◌, ◌++◌, Text, codes}
use bastion.Base.Int.{pos}
use bastion.Rules.Expr.{Expr, Result}
use bastion.Rules.Parser.{parse}
use bastion.Rules.Facts.{OperationResult, Fact, new_context}
use bastion.Rules.Eval.{evaluate}
use bastion.Catalog.Experience.{ExperienceRecord}
use bastion.Catalog.Assertion.{AssertionDescriptor, evaluate_assertion_descriptor}
use bastion.Catalog.Doctor.{DoctorCheck, doctor_condition}
use bastion.Catalog.Advice.{AdviceTrigger, trigger_condition}
use bastion.Catalog.Shim.{
  cel_parse, legacy_eval, no_cel_condition, ShimResult, ComparisonResult, compare,
  eval_cel_on_record_with_facts,
}

abbrev passed_or_failed : Bool → Text
passed_or_failed true = codes "passed"
passed_or_failed false = codes "failed"

-- The confidence has the bits of 1.0.
abbrev verdict_fact : Text → Bool → Fact
verdict_fact assertion_id passed = record {
  key = codes "assertion:" ++ assertion_id;
  value = passed_or_failed passed;
  tags = [];
  source_extractor = codes "legacy_shim";
  confidence = 0x3f800000;
}

abbrev both_pass : ShimResult ComparisonResult
both_pass =
    ShimResult.ok
      (record { legacy_passed = true; cel_passed = true; legacy_reason = none; matches = true })

-- The operation that triggers are evaluated on.
abbrev no_operation : OperationResult
no_operation = record {
  exit_code = pos 0;
  stdout = [];
  stderr = [];
  duration_ms = 0;
  timed_out = false;
}

module _ (is_alphanumeric : ℕ → Bool) (is_valid_regex : Text → Bool)
    (regex : Text → Text → Option Bool) where
  abbrev compare_doctor :
      Text → ExperienceRecord → Bool × Option Text → Option Text → ShimResult ComparisonResult
  compare_doctor assertion_id r legacy none = ShimResult.err no_cel_condition
  compare_doctor assertion_id r legacy (some condition) =
      compare is_alphanumeric is_valid_regex regex legacy (
        eval_cel_on_record_with_facts is_alphanumeric is_valid_regex regex r
          (verdict_fact assertion_id legacy.0 ∷ []) condition)

  module _ (debug : Text → Text) (get : Text → Option AssertionDescriptor) where
    abbrev doctor_found :
        Text → ExperienceRecord → Option AssertionDescriptor → ShimResult ComparisonResult
    doctor_found assertion_id r none =
        ShimResult.err (legacy_eval (codes "Assertion '" ++ assertion_id ++ codes "' not found"))
    doctor_found assertion_id r (some descriptor) =
        compare_doctor assertion_id r (evaluate_assertion_descriptor debug descriptor.checks r)
          (doctor_condition (DoctorCheck.assertion_driven assertion_id))

    unfoldable pub evaluate_doctor_check :
        DoctorCheck → ExperienceRecord → ShimResult ComparisonResult
    unfolding doctor_condition
    evaluate_doctor_check (DoctorCheck.assertion_driven assertion_id) r =
        doctor_found assertion_id r (get assertion_id)
    evaluate_doctor_check _ r = both_pass

  abbrev eval_cel_sync : List Fact → Result Expr → ShimResult Bool
  eval_cel_sync facts (Result.ok e) =
      ShimResult.ok (evaluate (new_context no_operation facts) regex e)
  eval_cel_sync facts (Result.err e) = ShimResult.err (cel_parse e)
  eval_cel_sync facts Result.out_of_fuel = ShimResult.out_of_fuel

  abbrev as_comparison : ShimResult Bool → ShimResult ComparisonResult
  as_comparison (ShimResult.ok cel) =
      ShimResult.ok
        (record { legacy_passed = cel; cel_passed = cel; legacy_reason = none; matches = true })
  as_comparison (ShimResult.err e) = ShimResult.err e
  as_comparison ShimResult.out_of_fuel = ShimResult.out_of_fuel

  abbrev evaluate_condition : List Fact → Option Text → ShimResult ComparisonResult
  evaluate_condition facts none = ShimResult.err no_cel_condition
  evaluate_condition facts (some condition) =
      as_comparison (eval_cel_sync facts (parse is_alphanumeric is_valid_regex condition))

  unfoldable pub evaluate_advice_trigger : AdviceTrigger → List Fact → ShimResult ComparisonResult
  unfolding trigger_condition
  evaluate_advice_trigger trigger facts = evaluate_condition facts (trigger_condition trigger)
