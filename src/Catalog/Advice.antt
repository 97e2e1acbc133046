-- ===== src/Catalog/Advice.antt =====
-- Advice, crates/bastion-domain/src/catalog/advice.rs, and the conditions of its triggers, of
-- crates/bastion-infrastructure/src/catalog/toml_advice_parser.rs. A JSON value is its text.
use bastion.Base.{ℕ, Bool, Option, some, List, ◌++◌, any, Text, text_eq, ◌==◌, codes}
use bastion.Base.Chars.{show_ℕ}

pub data AdviceSeverity : Type 0 where
  critical warning hint : AdviceSeverity

unfoldable pub sort_key : AdviceSeverity → ℕ
sort_key AdviceSeverity.critical = 0
sort_key AdviceSeverity.warning = 1
sort_key AdviceSeverity.hint = 2

-- `AdviceTrigger`, and `TomlTrigger`, which has the same variants.
pub data AdviceTrigger : Type 0 where
  assertion_failed doctor_failed : Text → AdviceTrigger
  experience_pattern : Text → Text → ℕ → AdviceTrigger

pub record AdviceDescriptor : Type 0 where
  pub id : Text
  pub name : Text
  pub description : Text
  pub category : Text
  pub severity : AdviceSeverity
  pub triggers : List AdviceTrigger
  pub message : Text
  pub suggested_actions : List Text
  pub hint : Option Text

pub record AdviceResult : Type 0 where
  pub advice_id : Text
  pub triggered_by : AdviceTrigger
  pub message : Text
  pub context : Text
  pub suggested_actions : List Text
  pub severity : AdviceSeverity

unfoldable pub new_advice_result :
    Text → AdviceTrigger → Text → List Text → AdviceSeverity → AdviceResult
new_advice_result advice_id triggered_by message suggested_actions severity = record {
  advice_id = advice_id;
  triggered_by = triggered_by;
  message = message;
  context = codes "null";
  suggested_actions = suggested_actions;
  severity = severity;
}

pub record AdviceConfig : Type 0 where
  pub enabled : Bool
  pub disabled : List Text

unfoldable pub is_disabled : AdviceConfig → Text → Bool
is_disabled config id = any (λ d. d == id) config.disabled

unfoldable pub trigger_condition : AdviceTrigger → Option Text
trigger_condition (AdviceTrigger.assertion_failed id) =
    some (codes "fact('assertion:" ++ id ++ codes "') == 'failed'")
trigger_condition (AdviceTrigger.doctor_failed id) =
    some (codes "fact('doctor:" ++ id ++ codes "') == 'failed'")
trigger_condition (AdviceTrigger.experience_pattern tool_name status threshold) = some (
    codes "count_fact('experience:"
    ++ tool_name
    ++ codes ":"
    ++ status
    ++ codes "', '>=', "
    ++ show_ℕ threshold
    ++ codes ")")
