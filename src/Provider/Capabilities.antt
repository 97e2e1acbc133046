-- ===== src/Provider/Capabilities.antt =====
-- What a provider can do, crates/bastion-domain/src/provider/capabilities.rs. The builder methods
-- `with_*` are updates of a field of the record.
pub mod Laws
use bastion.Base.{ℕ, Bool, true, false, not, ◌&&◌, ◌||◌, nat_eq, leb, if◌then◌else◌, Text, codes}

pub record ProviderCapabilities : Type 0 where
  pub supports_snapshots : Bool
  pub supports_streaming : Bool
  pub supports_pause_resume : Bool
  pub max_timeout_ms : ℕ
  pub max_memory_mb : ℕ
  pub max_cpu_count : ℕ
  pub supports_networking : Bool
  pub requires_kvm : Bool
  pub avg_startup_ms : ℕ

abbrev pub default_capabilities : ProviderCapabilities
default_capabilities = record {
  supports_snapshots = false;
  supports_streaming = true;
  supports_pause_resume = false;
  max_timeout_ms = 86400000;
  max_memory_mb = 16384;
  max_cpu_count = 16;
  supports_networking = true;
  requires_kvm = false;
  avg_startup_ms = 1500;
}

-- `zero_value` names the field.
pub data Validated : Type 0 where
  ok : ProviderCapabilities → Validated
  zero_value : Text → Validated

-- The arguments of `try_new` are the fields of the value that it gives.
unfoldable pub try_new : ProviderCapabilities → Validated
try_new c =
    if nat_eq c.max_timeout_ms 0
    then zero_value (codes "max_timeout_ms")
    else if nat_eq c.max_memory_mb 0
    then zero_value (codes "max_memory_mb")
    else if nat_eq c.max_cpu_count 0
    then zero_value (codes "max_cpu_count")
    else if nat_eq c.avg_startup_ms 0
    then zero_value (codes "avg_startup_ms")
    else ok c

unfoldable pub supports_all : ProviderCapabilities → ProviderCapabilities → Bool
supports_all self required =
    (not required.supports_snapshots || self.supports_snapshots)
    && (not required.supports_streaming || self.supports_streaming)
    && (not required.supports_pause_resume || self.supports_pause_resume)
    && leb required.max_timeout_ms self.max_timeout_ms
    && leb required.max_memory_mb self.max_memory_mb
    && leb required.max_cpu_count self.max_cpu_count
    && (not required.supports_networking || self.supports_networking)
    && (not required.requires_kvm || self.requires_kvm)
    && leb self.avg_startup_ms required.avg_startup_ms
