-- ===== src/Catalog/Assertion.antt =====
-- Assertions of crates/bastion-domain/src/catalog/assertion.rs, and their form in a file, of
-- crates/bastion-infrastructure/src/catalog/toml_assertion_parser.rs. The argument `debug` is the
-- format `{:?}` of a string.
pub mod Laws
use bastion.Base.{
  ℕ, Bool, true, false, Option, none, some, List, [], ◌∷◌, ◌++◌, leb, if◌then◌else◌, Text, ◌==◌,
  codes,
}
use bastion.Base.Int.{ℤ, pos, ℤ_eq}
use bastion.Base.Chars.{contains, show_ℕ, show_ℤ}
use bastion.Catalog.Experience.{ExperienceRecord, duration_ms}

-- `AssertionCheck`, and `TomlCheck`, which has the same variants.
pub data AssertionCheck : Type 0 where
  exit_code : ℤ → AssertionCheck
  stdout_contains stderr_contains stdout_matches : Text → AssertionCheck
  sandbox_alive : AssertionCheck
  command_duration : ℕ → AssertionCheck

pub record AssertionDescriptor : Type 0 where
  pub id : Text
  pub name : Text
  pub description : Text
  pub category : Text
  pub checks : List AssertionCheck

pub record TomlAssertion : Type 0 where
  pub id : Text
  pub name : Text
  pub description : Text
  pub category : Text
  pub check : Option AssertionCheck
  pub checks : List AssertionCheck

abbrev checks_of : Option AssertionCheck → List AssertionCheck → List AssertionCheck
checks_of none checks = checks
checks_of (some check) checks = check ∷ checks

abbrev or_exit_code : List AssertionCheck → List AssertionCheck
or_exit_code [] = AssertionCheck.exit_code (pos 0) ∷ []
or_exit_code (c ∷ cs) = c ∷ cs

unfoldable pub descriptor_of : TomlAssertion → AssertionDescriptor
descriptor_of a = record {
  id = a.id;
  name = a.name;
  description = a.description;
  category = a.category;
  checks = or_exit_code (checks_of a.check a.checks);
}

abbrev check_code : ℤ → Option ℤ → Bool × Option Text
check_code expected none =
    (false, some (codes "expected exit code " ++ show_ℤ expected ++ codes ", got none"))
check_code expected (some code) = if code == expected then (true, none) else (
  false,
  some (codes "expected exit code " ++ show_ℤ expected ++ codes ", got " ++ show_ℤ code),
)

abbrev check_duration : ℕ → Option ℕ → Bool × Option Text
check_duration max_ms none = (false, some (codes "command still running, duration unknown"))
check_duration max_ms (some dur) = if leb dur max_ms then (true, none) else (
  false,
  some (
      codes "command took "
      ++ show_ℕ dur
      ++ codes "ms, expected <= "
      ++ show_ℕ max_ms
      ++ codes "ms"),
)

module _ (debug : Text → Text) where
  abbrev pub check_contains : Text → Text → Text → Bool × Option Text
  check_contains stream text sub =
      if contains text sub
      then (true, none)
      else (false, some (stream ++ codes " does not contain " ++ debug sub))

  unfoldable pub evaluate_check : AssertionCheck → ExperienceRecord → Bool × Option Text
  evaluate_check (AssertionCheck.exit_code expected) r = check_code expected r.exit_code
  evaluate_check (AssertionCheck.stdout_contains sub) r =
      check_contains (codes "stdout") r.stdout_summary sub
  evaluate_check (AssertionCheck.stderr_contains sub) r =
      check_contains (codes "stderr") r.stderr_summary sub
  evaluate_check (AssertionCheck.stdout_matches regex) r = (true, none)
  evaluate_check AssertionCheck.sandbox_alive r = (true, none)
  evaluate_check (AssertionCheck.command_duration max_ms) r = check_duration max_ms (duration_ms r)

  -- The loop of `evaluate_assertion_descriptor`.
  abbrev note : Bool × Option Text → Bool × List Text → Bool × List Text
  note (true, reason) (passed, reasons) = (passed, reasons)
  note (false, none) (passed, reasons) = (false, reasons)
  note (false, some reason) (passed, reasons) = (false, reasons ++ reason ∷ [])

  descriptor_loop : List AssertionCheck → ExperienceRecord → Bool × List Text → Bool × List Text
  unfolding evaluate_check
  descriptor_loop [] r acc = acc
  descriptor_loop (c ∷ cs) r acc = descriptor_loop cs r (note (evaluate_check c r) acc)

  abbrev join : List Text → Text
  join [] = []
  join (t ∷ []) = t
  join (t ∷ u ∷ ts) = t ++ codes "; " ++ join (u ∷ ts)

  abbrev verdict_of : Bool × List Text → Bool × Option Text
  verdict_of (passed, []) = (passed, none)
  verdict_of (passed, t ∷ ts) = (false, some (join (t ∷ ts)))

  unfoldable pub evaluate_assertion_descriptor :
      List AssertionCheck → ExperienceRecord → Bool × Option Text
  unfolding descriptor_loop
  evaluate_assertion_descriptor checks r = verdict_of (descriptor_loop checks r (true, []))
