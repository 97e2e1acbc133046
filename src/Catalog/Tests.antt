-- ===== src/Catalog/Tests.antt =====
-- Runs of the assertions and of their conditions, and their theorems at concrete inputs.
use bastion.Base.{
  ℕ, zero, suc, ◌≤◌, ◌<◌, ◌≡◌, refl, ◌⊎◌, Bool, true, false, ◌||◌, Option, none, some, List, [],
  ◌∷◌, ◌++◌, all, Text, codes,
}
use bastion.Base.Int.{pos, negsuc, as_i32}
use bastion.Base.Chars.{
  contains, is_ascii_letter, is_ascii_digit, is_whitespace, parse_i32, show_ℕ, show_ℤ,
}
use bastion.Base.Map.{lookup, insert}
use bastion.Catalog.Experience.{
  ExperienceRecord, new_experience, completed, timed_out, with_stdout, byte_len, truncated_mark,
  summarize_output, duration_ms, is_terminal_experience, cancelled_at,
}
use bastion.Catalog.Experience.Laws.{summarize_output-keeps}
use bastion.Catalog.Assertion.{
  AssertionCheck, descriptor_of, evaluate_check, evaluate_assertion_descriptor,
}
use bastion.Catalog.Assertion.Laws.{Explained, descriptor-all}
use bastion.Catalog.Doctor.{
  Severity, DoctorStatus, DoctorCheck, doctor_condition, new_doctor_result, add_check_result,
  finalize,
}
use bastion.Catalog.Advice.{AdviceTrigger, trigger_condition}
use bastion.Catalog.Shim.Triggers.{evaluate_advice_trigger}
use bastion.Rules.Facts.{Fact, new_context, get_fact}
use bastion.Rules.Eval.{evaluate, compare_eq}
use bastion.Rules.Expr.{ParseError}
use bastion.Rules.Lexer.{next_token, skip_whitespace, keyword_kind}
use bastion.Rules.Parser.{parse, start, comparison_of, parse_expression}
use bastion.Rules.Parser.Calls.{build_call, plain_identifier}
use bastion.Catalog.Shim.{
  escape_cel_string, to_cel_condition, ShimResult, ComparisonResult, cel_parse, compare,
  operation_of, eval_cel_on_record, evaluate_toml_check,
}
use bastion.Catalog.Shim.Laws.{Agrees, contains_check-escaped, contains_check-Agrees}

abbrev ascii : ℕ → Bool
ascii c = is_ascii_letter c || is_ascii_digit c

ascii-letters : (c : ℕ) → is_ascii_letter c ≡ true → ascii c ≡ true
ascii-letters c h = rw h refl

ascii_paren : ascii b'(' ≡ false
unfolding is_ascii_letter is_ascii_digit
ascii_paren = refl

abbrev any_regex : Text → Bool
any_regex s = true

abbrev no_match : Text → Text → Option Bool
no_match p s = none

abbrev between_quotes : Text → Text
between_quotes s = codes "\"" ++ s ++ codes "\""

abbrev started : ExperienceRecord
unfolding new_experience
started = new_experience (codes "e1") 1000000000 (codes "sandbox_run")

abbrev done : ExperienceRecord
unfolding completed with_stdout
done = completed (pos 0) 3500000000 (with_stdout (codes "it's BUILD SUCCESS") started)

experience_test :
    (duration_ms done ≡ some 2500)
    × (duration_ms started ≡ none)
    × (done.stdout_summary ≡ codes "it's BUILD SUCCESS")
    × (is_terminal_experience done.status ≡ true)
    × (is_terminal_experience (timed_out 5 started).status ≡ false)
    × (is_terminal_experience (cancelled_at 5 started).status ≡ false)
unfolding duration_ms is_terminal_experience timed_out cancelled_at completed with_stdout
    summarize_output new_experience
experience_test = (refl, refl, refl, refl, refl, refl)

condition_test :
    (to_cel_condition (AssertionCheck.exit_code (negsuc 0)) ≡ some (codes "exit_code == -1"))
    × (to_cel_condition (AssertionCheck.stdout_contains (codes "it's"))
        ≡ some (codes "stdout_contains('it\\'s')"))
    × (to_cel_condition (AssertionCheck.command_duration 20) ≡ some (codes "duration_lt(20)"))
unfolding to_cel_condition escape_cel_string show_ℕ show_ℤ
condition_test = (refl, refl, refl)

abbrev checks : List AssertionCheck
checks =
    AssertionCheck.exit_code (pos 0)
    ∷ AssertionCheck.stdout_contains (codes "FAILURE")
    ∷ AssertionCheck.command_duration 2500
    ∷ []

descriptor_test :
    evaluate_assertion_descriptor between_quotes checks done
    ≡ (false, some (codes "stdout does not contain \"FAILURE\""))
unfolding evaluate_assertion_descriptor evaluate_check contains duration_ms completed with_stdout
    summarize_output new_experience
descriptor_test = refl

descriptor-all_example :
    ((evaluate_assertion_descriptor between_quotes checks done).0
      ≡ all (λ c. (evaluate_check between_quotes c done).0) checks)
    × Explained (evaluate_assertion_descriptor between_quotes checks done)
descriptor-all_example = descriptor-all between_quotes checks done

contains_check-escaped_example :
    (evaluate_toml_check ascii any_regex no_match between_quotes
        (AssertionCheck.stdout_contains (codes "it's"))
        done
      ≡ compare ascii any_regex no_match
          (evaluate_check between_quotes (AssertionCheck.stdout_contains (codes "it's")) done)
          (ShimResult.ok (contains done.stdout_summary (escape_cel_string (codes "it's")))))
    × (evaluate_toml_check ascii any_regex no_match between_quotes
          (AssertionCheck.stderr_contains (codes "it's"))
          done
        ≡ compare ascii any_regex no_match
            (evaluate_check between_quotes (AssertionCheck.stderr_contains (codes "it's")) done)
            (ShimResult.ok (contains done.stderr_summary (escape_cel_string (codes "it's")))))
contains_check-escaped_example =
    contains_check-escaped ascii ascii-letters ascii_paren any_regex no_match between_quotes
      (codes "it's") done

-- The check passes on that record and its condition does not.
quote_test :
    ((evaluate_check between_quotes (AssertionCheck.stdout_contains (codes "it's")) done).0 ≡ true)
    × (contains done.stdout_summary (escape_cel_string (codes "it's")) ≡ false)
unfolding evaluate_check contains escape_cel_string completed with_stdout summarize_output
    new_experience
quote_test = (refl, refl)

contains_check-Agrees_example :
    Agrees ascii ascii-letters ascii_paren any_regex no_match between_quotes
      (evaluate_toml_check ascii any_regex no_match between_quotes
        (AssertionCheck.stdout_contains (codes "BUILD"))
        done)
      (contains done.stdout_summary (codes "BUILD"))
    × Agrees ascii ascii-letters ascii_paren any_regex no_match between_quotes
        (evaluate_toml_check ascii any_regex no_match between_quotes
          (AssertionCheck.stderr_contains (codes "BUILD"))
          done)
        (contains done.stderr_summary (codes "BUILD"))
contains_check-Agrees_example =
    contains_check-Agrees ascii ascii-letters ascii_paren any_regex no_match between_quotes
      (codes "BUILD") done (refl, (refl, (refl, (refl, (refl, tt)))))

abbrev repeated : ℕ → Text
repeated zero = []
repeated (suc n) = b'x' ∷ repeated n

abbrev long_output : Text
long_output = repeated 1500

summarize_output-keeps_example :
    ((byte_len long_output ≤ 1024) × (summarize_output long_output ≡ long_output))
    ⊎ ((1024 < byte_len long_output)
        × (front : Text) × (middle : Text) × (back : Text) × (long_output
            ≡ front ++ (middle ++ back))
        × (summarize_output long_output ≡ front ++ truncated_mark ++ back)
        × (byte_len front ≤ 512)
        × (byte_len back ≤ 512))
summarize_output-keeps_example = summarize_output-keeps long_output

toml_test :
    (descriptor_of (record {
      id = codes "a";
      name = codes "a";
      description = [];
      category = codes "general";
      check = none;
      checks = [];
    })).checks
    ≡ AssertionCheck.exit_code (pos 0) ∷ []
unfolding descriptor_of
toml_test = refl

operation_test :
    ((operation_of started).exit_code ≡ pos 0) × ((operation_of started).duration_ms ≡ 2147483647)
unfolding operation_of duration_ms new_experience
operation_test = (refl, refl)

doctor_test :
    ((finalize (new_doctor_result (codes "d") none (codes "t") Severity.warning 0)).status
      ≡ DoctorStatus.skip)
    × ((finalize (
          add_check_result
            (record { check = codes "a"; passed = false; reason = none })
            (new_doctor_result (codes "d") none (codes "t") Severity.warning 0))).status
        ≡ DoctorStatus.fail)
unfolding finalize add_check_result new_doctor_result
doctor_test = (refl, refl)

trigger_test :
    (trigger_condition (AdviceTrigger.experience_pattern (codes "run") (codes "failure") 3)
      ≡ some (codes "count_fact('experience:run:failure', '>=', 3)"))
    × (doctor_condition DoctorCheck.kvm_available ≡ none)
unfolding trigger_condition doctor_condition show_ℕ
trigger_test = (refl, refl)

abbrev failed_fact : Fact
failed_fact = record {
  key = codes "assertion:a";
  value = codes "failed";
  tags = [];
  source_extractor = codes "test";
  confidence = 0;
}

parsing : Unit {0}
unfolding next_token skip_whitespace keyword_kind parse_i32 is_whitespace start
    bastion.Rules.Parser.advance parse build_call plain_identifier comparison_of parse_expression
    is_ascii_letter is_ascii_digit
parsing = tt

trigger_run :
    evaluate_advice_trigger ascii any_regex no_match
      (AdviceTrigger.assertion_failed (codes "a"))
      (failed_fact ∷ [])
    ≡ ShimResult.ok
        (record { legacy_passed = true; cel_passed = true; legacy_reason = none; matches = true })
unfolding evaluate_advice_trigger trigger_condition evaluate new_context get_fact compare_eq lookup
    insert parsing
trigger_run = refl

abbrev compared : AssertionCheck → ExperienceRecord → ShimResult ComparisonResult
compared check r = evaluate_toml_check ascii any_regex no_match between_quotes check r

-- A record without an exit code: the check fails and its condition passes.
no_code_run :
    compared (AssertionCheck.exit_code (pos 0)) started
    ≡ ShimResult.ok (record {
      legacy_passed = false;
      cel_passed = true;
      legacy_reason = some (codes "expected exit code 0, got none");
      matches = false;
    })
unfolding evaluate_toml_check evaluate_check to_cel_condition eval_cel_on_record operation_of
    duration_ms new_experience evaluate new_context show_ℕ show_ℤ compare_eq parsing
no_code_run = refl

-- A run of exactly the longest time: the check passes and its condition does not.
exact_time_run :
    compared (AssertionCheck.command_duration 2500) done
    ≡ ShimResult.ok
        (record { legacy_passed = true; cel_passed = false; legacy_reason = none; matches = false })
unfolding evaluate_toml_check evaluate_check to_cel_condition eval_cel_on_record operation_of
    duration_ms new_experience completed with_stdout evaluate new_context show_ℕ show_ℤ as_i32
    parsing
exact_time_run = refl

negative_code_run :
    (e : ParseError) × (compared (AssertionCheck.exit_code (negsuc 0)) started
      ≡ ShimResult.err (cel_parse e))
unfolding evaluate_toml_check evaluate_check to_cel_condition eval_cel_on_record operation_of
    duration_ms new_experience evaluate new_context show_ℕ show_ℤ parsing
negative_code_run = (_, refl)
