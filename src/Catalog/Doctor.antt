-- ===== src/Catalog/Doctor.antt =====
-- Doctors, crates/bastion-domain/src/catalog/doctor.rs, and their conditions, of
-- crates/bastion-infrastructure/src/catalog/toml_doctor_parser.rs. A JSON value is its text, and a
-- time a number.
use bastion.Base.{
  ℕ, Bool, false, Option, none, some, List, [], ◌∷◌, ◌++◌, if◌then◌else◌, all, Text, codes,
}

pub data Severity : Type 0 where
  critical warning info : Severity

pub data DoctorStatus : Type 0 where
  pass fail skip error : DoctorStatus

-- `DoctorCheck`, and `TomlDoctorCheck`, which has the same variants.
pub data DoctorCheck : Type 0 where
  aliveness : Option Text → DoctorCheck
  resources : Option ℕ → Option ℕ → DoctorCheck
  assertion_driven : Text → DoctorCheck
  provider_alive : Text → DoctorCheck
  binary_available : Text → Option Text → DoctorCheck
  image_available : Text → Option Text → DoctorCheck
  kvm_available : DoctorCheck
  capabilities_met : Text → Option ℕ → Option ℕ → DoctorCheck
  config_valid worker_binary_valid : Text → DoctorCheck

pub record DoctorDescriptor : Type 0 where
  pub id : Text
  pub name : Text
  pub description : Text
  pub category : Text
  pub severity : Severity
  pub checks : List DoctorCheck

unfoldable pub doctor_condition : DoctorCheck → Option Text
doctor_condition (DoctorCheck.assertion_driven assertion_id) =
    some (codes "fact('assertion:" ++ assertion_id ++ codes "') == 'passed'")
doctor_condition _ = none

-- Of crates/bastion-domain/src/catalog/assertion.rs.
pub record CheckResult : Type 0 where
  pub check : Text
  pub passed : Bool
  pub reason : Option Text

pub data CheckStatus : Type 0 where
  pass fail warning skip : CheckStatus

pub record DeltaItem : Type 0 where
  pub item : Text
  pub expected : Text
  pub actual : Option Text
  pub severity : Severity

pub record InstallSource : Type 0 where
  pub name : Text
  pub url : Text
  pub method : Text

pub record Remediation : Type 0 where
  pub confidence : Text
  pub auto_fixable : Bool
  pub commands : List Text
  pub manual_steps : List Text
  pub verify_after : Text
  pub install_sources : List InstallSource

pub record BinaryInfo : Type 0 where
  pub name : Text
  pub path : Option Text
  pub version : Option Text

pub record ProviderInfo : Type 0 where
  pub name : Text
  pub version : Option Text
  pub available : Bool

pub record SystemContext : Type 0 where
  pub os : Text
  pub os_version : Text
  pub architecture : Text
  pub kernel : Text
  pub has_kvm : Bool
  pub has_nested_virt : Option Bool
  pub relevant_binaries : List (Text × BinaryInfo)
  pub installed_providers : List (Text × ProviderInfo)

pub record RichCheckResult : Type 0 where
  pub check_id : Text
  pub check_type : Text
  pub status : CheckStatus
  pub current_state : Text
  pub expected_state : Text
  pub delta : List DeltaItem
  pub remediation : Option Remediation
  pub system_context : SystemContext
  pub trace_id : Text
  pub executed_at : ℕ

pub record DoctorResult : Type 0 where
  pub doctor_id : Text
  pub sandbox_id : Option Text
  pub status : DoctorStatus
  pub severity : Severity
  pub trace_id : Text
  pub check_results : List CheckResult
  pub rationale : Text
  pub executed_at : ℕ
  pub rich_check_results : List RichCheckResult
  pub summary : Text
  pub requires_ai_attention : Bool
  pub potential_self_remediation : Bool

unfoldable pub new_doctor_result : Text → Option Text → Text → Severity → ℕ → DoctorResult
new_doctor_result doctor_id sandbox_id trace_id severity now = record {
  doctor_id = doctor_id;
  sandbox_id = sandbox_id;
  status = DoctorStatus.pass;
  severity = severity;
  trace_id = trace_id;
  check_results = [];
  rationale = [];
  executed_at = now;
  rich_check_results = [];
  summary = [];
  requires_ai_attention = false;
  potential_self_remediation = false;
}

unfoldable pub add_check_result : CheckResult → DoctorResult → DoctorResult
add_check_result result d = record d { check_results = d.check_results ++ result ∷ [] }

unfoldable pub add_rich_check_result : RichCheckResult → DoctorResult → DoctorResult
add_rich_check_result result d = record d {
  rich_check_results = d.rich_check_results ++ result ∷ [];
}

unfoldable pub set_summary : Text → DoctorResult → DoctorResult
set_summary summary d = record d { summary = summary }

unfoldable pub set_rationale : Text → DoctorResult → DoctorResult
set_rationale rationale d = record d { rationale = rationale }

abbrev status_of : List CheckResult → DoctorStatus
status_of [] = DoctorStatus.skip
status_of (c ∷ cs) = if all (λ c. c.passed) (c ∷ cs) then DoctorStatus.pass else DoctorStatus.fail

unfoldable pub finalize : DoctorResult → DoctorResult
finalize d = record d { status = status_of d.check_results }
