-- ===== src/Sandbox/Entity.antt =====
-- The `Sandbox` aggregate of crates/bastion-domain/src/sandbox/entity.rs, and `ResourcesSpec::new`
-- and `NetworkSpec` of value_objects.rs; `SandboxPurpose` is of project/types.rs. `chrono` gives the type of times, the sum of a time and a
-- number of milliseconds, and the order of times.
pub mod Lifecycle
pub mod Expiry
use Prim.Native.String.{String}
use bastion.Base.{
  ℕ, ◌^◌, Bool, true, false, ◌||◌, Option, none, some, List, [], nat_eq, if◌then◌else◌,
}
use bastion.Base.Int.{ℤ, as_signed}
use bastion.Sandbox.Status.{SandboxStatus, pending, running, paused, stopped, failed}
use bastion.Sandbox.Errors.{Result, ok, err, validation}

pub record ResourcesSpec : Type 0 where
  pub cpu_count : ℕ
  pub memory_mb : ℕ
  pub disk_mb : ℕ

unfoldable pub new_resources : ℕ → ℕ → ℕ → Result ResourcesSpec
new_resources cpu_count memory_mb disk_mb =
    if nat_eq cpu_count 0
    then err (validation "cpu_count must be at least 1")
    else ok (record { cpu_count = cpu_count; memory_mb = memory_mb; disk_mb = disk_mb })

abbrev pub default_resources : ResourcesSpec
default_resources = record { cpu_count = 1; memory_mb = 512; disk_mb = 1024 }

pub record NetworkSpec : Type 0 where
  pub allow_internet : Bool
  pub allowed_hosts : List String
  pub denied_hosts : List String
  pub expose_ports : Bool
  pub exposed_ports : List ℕ

abbrev pub default_network : NetworkSpec
default_network = record {
  allow_internet = true;
  allowed_hosts = [];
  denied_hosts = [];
  expose_ports = false;
  exposed_ports = [];
}

pub data SandboxPurpose : Type 0 where
  ad_hoc_test proof_of_concept e2e_test real_test pipeline_stage job : SandboxPurpose

pub record Sandbox (Time : Type 0) : Type 0 where
  pub id : String
  pub template_id : String
  pub provider_id : String
  pub provider_instance_id : Option String
  pub status : SandboxStatus
  pub created_at : Time
  pub expires_at : Option Time
  pub resources : ResourcesSpec
  pub network : NetworkSpec
  pub metadata : List (String × String)
  pub project_id : Option String
  pub purpose : Option SandboxPurpose

module _ {Time : Type 0} where
  unfoldable pub new_sandbox :
      String → String → String → Option String → ResourcesSpec → NetworkSpec → Time → Sandbox Time
  new_sandbox id template_id provider_id instance_id resources network now = record {
    id = id;
    template_id = template_id;
    provider_id = provider_id;
    provider_instance_id = instance_id;
    status = pending;
    created_at = now;
    expires_at = none;
    resources = resources;
    network = network;
    metadata = [];
    project_id = none;
    purpose = none;
  }

  unfoldable pub new_with_project :
      String
      → String
      → String
      → Option String
      → ResourcesSpec
      → NetworkSpec
      → String
      → SandboxPurpose
      → Time
      → Sandbox Time
  new_with_project id template_id provider_id instance_id resources network project_id purpose now =
      record {
        id = id;
        template_id = template_id;
        provider_id = provider_id;
        provider_instance_id = instance_id;
        status = pending;
        created_at = now;
        expires_at = none;
        resources = resources;
        network = network;
        metadata = [];
        project_id = some project_id;
        purpose = some purpose;
      }

  abbrev running_from : SandboxStatus → Sandbox Time → Result (Sandbox Time)
  running_from pending s = ok (record s { status = running })
  running_from paused s = ok (record s { status = running })
  running_from _ s = err (validation s.id)

  unfoldable pub mark_running : Sandbox Time → Result (Sandbox Time)
  mark_running s = running_from s.status s

  abbrev stopped_from : SandboxStatus → Sandbox Time → Result (Sandbox Time)
  stopped_from stopped s = err (validation s.id)
  stopped_from failed s = err (validation s.id)
  stopped_from _ s = ok (record s { status = stopped })

  unfoldable pub terminate : Sandbox Time → Result (Sandbox Time)
  terminate s = stopped_from s.status s

  unfoldable pub mark_failed : Sandbox Time → Sandbox Time
  mark_failed s = record s { status = failed }

  unfoldable pub is_expired : (Time → Time → Bool) → Time → Sandbox Time → Bool
  is_expired later now s = elim s.expires_at [ none ↦ false | some expires ↦ later now expires ]

  -- `timeout_ms as i64` keeps the low 64 bits, read in two's complement.
  unfoldable pub set_timeout : (Time → ℤ → Time) → ℕ → Sandbox Time → Sandbox Time
  set_timeout add_ms timeout_ms s = record s {
    expires_at = some (add_ms s.created_at (as_signed (2 ^ 63) timeout_ms));
  }
