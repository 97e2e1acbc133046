-- ===== src/Enrichment/Command/Classifier.antt =====
-- The classifier of tokens in crates/enrichment-engine/src/extractors/command_extractor.rs, and the
-- extractor.
pub mod Gates
use bastion.Base.{
  ℕ, zero, suc, ◌+◌, Bool, true, false, not, ◌&&◌, ◌||◌, Option, none, some, List, [], ◌∷◌, ◌++◌,
  map, nat_eq, if◌then◌else◌, Text, text_eq, ◌==◌, codes, drop,
}
use bastion.Base.Map.{lookup}
use bastion.Base.Chars.{starts_with, is_empty, show_ℕ}
use bastion.Rules.Facts.{Fact}
use bastion.Enrichment.Command.Tokenizer.{
  Diagnostic, unsafe_token, command_too_long, empty_command, unclosed_quote, Tokenized, ok, err,
  stuck, byte_len, tokenize,
}

pub record CommandExtractorPolicy : Type 0 where
  pub allow_flags : Bool
  pub allow_options : Bool
  pub allow_targets : Bool
  pub max_tokens : ℕ
  pub max_input_len : ℕ
  pub goal_map : Option (List (Text × Text))

-- `Diagnostic::key` and `Diagnostic::value`.
abbrev diagnostic_key : Diagnostic → Text
diagnostic_key (unsafe_token c) = codes "unsafe_token"
diagnostic_key (command_too_long tokens length) = codes "command_too_long"
diagnostic_key empty_command = codes "empty_command"
diagnostic_key (unclosed_quote prefix) = codes "unclosed_quote"

diagnostic_value : Diagnostic → Text
unfolding show_ℕ
diagnostic_value (unsafe_token c) = c ∷ []
diagnostic_value (command_too_long tokens length) =
    codes "t:" ++ (show_ℕ tokens ++ (codes " l:" ++ show_ℕ length))
diagnostic_value empty_command = []
diagnostic_value (unclosed_quote prefix) = prefix

unfoldable pub classify_tool : Text → Text
classify_tool executable =
    if executable == codes "mvn"
    then codes "maven"
    else if executable == codes "gradle" || executable == codes "gradlew"
    then codes "gradle"
    else if executable == codes "npm" || executable == codes "npx" || executable == codes "yarn"
    then codes "node"
    else if executable == codes "cargo"
    then codes "cargo"
    else codes "unknown"

default_intent : Text → Text
default_intent goal =
    if goal == codes "compile" || goal == codes "build"
    then codes "build"
    else if goal == codes "test"
    then codes "test"
    else if goal == codes "clean"
    then codes "clean"
    else if goal == codes "install"
    then codes "install"
    else if goal == codes "publish" || goal == codes "deploy"
    then codes "deploy"
    else codes "run"

abbrev overridden : Option (List (Text × Text)) → Text → Option Text
overridden none goal = none
overridden (some goals) goal = lookup goal goals

unfoldable pub infer_intent : Text → Option (List (Text × Text)) → Text
unfolding default_intent lookup
infer_intent goal goal_map = elim (overridden goal_map goal) [
  | some intent ↦ intent
  | none ↦ default_intent goal
]

-- A fact with confidence 1.0, the bits of an `f32`.
abbrev fact : Text → Text → Text → List Text → Fact
fact source key value tags = record {
  key = key;
  value = value;
  tags = tags;
  source_extractor = source;
  confidence = 0x3f800000;
}

-- `str::strip_prefix`, and the split at the first equals sign.
abbrev strip_prefix : Text → Text → Option Text
strip_prefix s [] = some s
strip_prefix [] (d ∷ prefix) = none
strip_prefix (c ∷ s) (d ∷ prefix) = if nat_eq c d then strip_prefix s prefix else none

abbrev split_eq : Text → Option (Text × Text)
split_eq [] = none
split_eq (c ∷ s) =
    if nat_eq c b'='
    then some ([], s)
    else (elim (split_eq s) [ none ↦ none | some (key, value) ↦ some (c ∷ key, value) ])

-- What a token gives: facts, targets, and whether the next token is skipped.
pub record Effect : Type 0 where
  pub facts : List Fact
  pub targets : List Text
  pub skips : Bool

abbrev nothing : Effect
nothing = record { facts = []; targets = []; skips = false }

abbrev only : Fact → Effect
only f = record nothing { facts = f ∷ [] }

abbrev when : Bool → Effect → Effect
when true effect = effect
when false effect = nothing

flag_effect : Text → Text → Effect
flag_effect source flag_rest = elim (split_eq flag_rest) [
  | some (name, value) ↦ only (fact source (codes "command_flag") (name ++ b'=' ∷ value) [])
  | none ↦ only (fact source (codes "command_flag") flag_rest [])
]

abbrev excluded : Text → Text → Text → Fact
excluded source value task =
    fact source (codes "command_option") value (codes "exclude" ∷ (codes "exclude:" ++ task) ∷ [])

-- `-xtask`, or `-x` and the task in the next token.
exclusion_effect : Text → Text → Text → Option Text → Effect
exclusion_effect source token (c ∷ task) next = only (excluded source token (c ∷ task))
exclusion_effect source token [] none = nothing
exclusion_effect source token [] (some next) =
    if starts_with next (codes "-")
    then nothing
    else record (only (excluded source (codes "-x=" ++ next) next)) { skips = true }

property_effect : Text → Text → Text → Effect
property_effect source token d_arg = elim (split_eq d_arg) [
  | some (key, value) ↦ only (
      fact source (codes "command_option") token
        ((codes "key:" ++ key) ∷ (codes "value:" ++ value) ∷ []))
  | none ↦ only (fact source (codes "command_option") token ((codes "key:" ++ d_arg) ∷ []))
]

profile_effect : Text → Text → Text → Effect
profile_effect source token [] = nothing
profile_effect source token (c ∷ profile) = only (
    fact source (codes "command_option") token
      (codes "profile" ∷ (codes "profile:" ++ c ∷ profile) ∷ []))

-- A token with one byte after a dash, or a target.
plain_effect : CommandExtractorPolicy → Text → Text → Effect
plain_effect policy source token =
    if nat_eq (byte_len token) 2 && starts_with token (codes "-")
    then when policy.allow_flags (only (fact source (codes "command_flag") (drop 1 token) []))
    else record nothing { targets = token ∷ [] }

token_effect : CommandExtractorPolicy → Text → Text → Option Text → Effect
unfolding flag_effect exclusion_effect property_effect profile_effect plain_effect
token_effect policy source token next = elim (strip_prefix token (codes "--")) [
  | some flag_rest ↦ when policy.allow_flags (flag_effect source flag_rest)
  | none ↦ elim (strip_prefix token (codes "-x")) [
    | some task ↦ when policy.allow_options (exclusion_effect source token task next)
    | none ↦ elim (strip_prefix token (codes "-D")) [
      | some d_arg ↦ when policy.allow_options (property_effect source token d_arg)
      | none ↦ elim (strip_prefix token (codes "-P")) [
        | some profile ↦ when policy.allow_options (profile_effect source token profile)
        | none ↦ plain_effect policy source token
      ]
    ]
  ]
]

-- The loop over the remaining tokens: the facts and the targets that it collects.
abbrev joined : Effect → List Fact × List Text → List Fact × List Text
joined effect (facts, targets) = (effect.facts ++ facts, effect.targets ++ targets)

classify_rest : CommandExtractorPolicy → Text → List Text → List Fact × List Text
unfolding token_effect
classify_rest policy source [] = ([], [])
classify_rest policy source (token ∷ []) = joined (token_effect policy source token none) ([], [])
classify_rest policy source (token ∷ next ∷ tokens) =
    let effect = token_effect policy source token (some next) in
    let skipping = classify_rest policy source tokens in
    let going_on = classify_rest policy source (next ∷ tokens) in
    joined effect (if effect.skips then skipping else going_on)

-- The second token, unless it looks like an option.
goal_facts : CommandExtractorPolicy → Text → List Text → List Fact
unfolding infer_intent
goal_facts policy source [] = []
goal_facts policy source (goal ∷ tokens) =
    if starts_with goal (codes "-D")
      || starts_with goal (codes "-P")
      || starts_with goal (codes "-x")
    then []
    else fact source (codes "command_goal") goal []
      ∷ fact source (codes "command_intent") (infer_intent goal policy.goal_map)
          (codes "intent" ∷ [])
      ∷ []

target_facts : CommandExtractorPolicy → Text → List Text → List Fact
target_facts policy source targets =
    if policy.allow_targets
    then map (λ target. fact source (codes "command_target") target []) targets
    else []

unfoldable pub classify : List Text → CommandExtractorPolicy → Text → List Fact
unfolding classify_tool goal_facts classify_rest target_facts starts_with
classify [] policy source = []
classify (executable ∷ tokens) policy source =
    let (facts, targets) = classify_rest policy source (drop 1 tokens) in
    fact source (codes "command_executable") executable []
    ∷ fact source (codes "command_tool") (classify_tool executable) (codes "tool" ∷ [])
    ∷ (goal_facts policy source tokens ++ (facts ++ target_facts policy source targets))

abbrev diagnostic_fact : Text → Text → Text → Fact
diagnostic_fact source key value = record {
  key = key;
  value = value;
  tags = codes "diagnostic" ∷ [];
  source_extractor = source;
  confidence = 0;
}

-- `none` where the tokenizer is stuck.
unfoldable pub extract_command : Text → CommandExtractorPolicy → Text → Option (List Fact)
unfolding tokenize classify diagnostic_value
extract_command source policy command =
    elim (tokenize command policy.max_tokens policy.max_input_len) [
      | err d ↦ some (diagnostic_fact source (diagnostic_key d) (diagnostic_value d) ∷ [])
      | ok [] ↦ some (diagnostic_fact source (codes "empty_command") [] ∷ [])
      | ok (executable ∷ tokens) ↦ some (classify (executable ∷ tokens) policy source)
      | stuck ↦ none
    ]
