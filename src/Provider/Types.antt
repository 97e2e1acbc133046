-- ===== src/Provider/Types.antt =====
-- The types of providers and their registry, crates/bastion-domain/src/provider/provider_type.rs and
-- type_registry.rs.
pub mod Laws
use bastion.Base.{
  ℕ, Bool, true, false, Option, none, some, List, [], ◌∷◌, map, Text, text_eq, codes,
}
use bastion.Base.Map.{lookup, insert}
use bastion.Provider.Capabilities.{ProviderCapabilities, Validated, ok, zero_value, try_new}

pub data LifecycleModel : Type 0 where
  container virtual_machine wasm serverless local : LifecycleModel

pub record ProviderType : Type 0 where
  pub id : Text
  pub capabilities : ProviderCapabilities
  pub lifecycle_model : LifecycleModel
  pub avg_startup_ms : ℕ
  pub requires_kvm : Bool
  pub supports_snapshots : Bool

abbrev pub ProviderTypeRegistry : Type 0
ProviderTypeRegistry = List (Text × ProviderType)

unfoldable pub get : Text → ProviderTypeRegistry → Option ProviderType
unfolding lookup
get id types = lookup id types

unfoldable pub register_type : ProviderType → ProviderTypeRegistry → ProviderTypeRegistry
unfolding insert
register_type provider_type types = insert provider_type.id provider_type types

abbrev values : ProviderTypeRegistry → List ProviderType
values [] = []
values ((id, provider_type) ∷ types) = provider_type ∷ values types

unfoldable pub list_types : ProviderTypeRegistry → List ProviderType
list_types types = values types

abbrev pub container_capabilities : ProviderCapabilities
container_capabilities = record {
  supports_snapshots = true;
  supports_streaming = true;
  supports_pause_resume = true;
  max_timeout_ms = 86400000;
  max_memory_mb = 16384;
  max_cpu_count = 16;
  supports_networking = true;
  requires_kvm = false;
  avg_startup_ms = 1500;
}

abbrev pub vm_capabilities : ProviderCapabilities
vm_capabilities = record {
  supports_snapshots = true;
  supports_streaming = true;
  supports_pause_resume = true;
  max_timeout_ms = 86400000;
  max_memory_mb = 65536;
  max_cpu_count = 32;
  supports_networking = true;
  requires_kvm = true;
  avg_startup_ms = 500;
}

abbrev pub wasm_capabilities : ProviderCapabilities
wasm_capabilities = record {
  supports_snapshots = false;
  supports_streaming = true;
  supports_pause_resume = false;
  max_timeout_ms = 300000;
  max_memory_mb = 512;
  max_cpu_count = 4;
  supports_networking = false;
  requires_kvm = false;
  avg_startup_ms = 50;
}

abbrev pub local_capabilities : ProviderCapabilities
local_capabilities = record {
  supports_snapshots = false;
  supports_streaming = true;
  supports_pause_resume = false;
  max_timeout_ms = 86400000;
  max_memory_mb = 65536;
  max_cpu_count = 64;
  supports_networking = true;
  requires_kvm = false;
  avg_startup_ms = 1;
}

abbrev pub serverless_capabilities : ProviderCapabilities
serverless_capabilities = record {
  supports_snapshots = false;
  supports_streaming = true;
  supports_pause_resume = false;
  max_timeout_ms = 900000;
  max_memory_mb = 3008;
  max_cpu_count = 2;
  supports_networking = true;
  requires_kvm = false;
  avg_startup_ms = 5000;
}

abbrev type_of : Text → ProviderCapabilities → LifecycleModel → ℕ → Bool → Bool → ProviderType
type_of id capabilities model avg_startup_ms requires_kvm supports_snapshots = record {
  id = id;
  capabilities = capabilities;
  lifecycle_model = model;
  avg_startup_ms = avg_startup_ms;
  requires_kvm = requires_kvm;
  supports_snapshots = supports_snapshots;
}

abbrev pub podman_type : ProviderType
podman_type = type_of (codes "podman") container_capabilities container 1500 false true

abbrev pub docker_type : ProviderType
docker_type = type_of (codes "docker") container_capabilities container 2000 false true

abbrev pub gvisor_type : ProviderType
gvisor_type = type_of (codes "gvisor") container_capabilities container 800 true false

abbrev pub firecracker_type : ProviderType
firecracker_type = type_of (codes "firecracker") vm_capabilities virtual_machine 500 true true

abbrev pub wasm_type : ProviderType
wasm_type = type_of (codes "wasm") wasm_capabilities wasm 50 false false

abbrev pub local_type : ProviderType
local_type = type_of (codes "local") local_capabilities local 0 false false

abbrev pub kubernetes_type : ProviderType
kubernetes_type = type_of (codes "kubernetes") serverless_capabilities serverless 5000 false false

abbrev pub lambda_type : ProviderType
lambda_type = type_of (codes "lambda") serverless_capabilities serverless 1000 false false

abbrev register_all : List ProviderType → ProviderTypeRegistry → ProviderTypeRegistry
register_all [] types = types
register_all (provider_type ∷ more) types = register_all more (register_type provider_type types)

unfoldable pub with_builtin_types : ProviderTypeRegistry
unfolding register_type
with_builtin_types =
    register_all
      (podman_type ∷ docker_type ∷ gvisor_type ∷ firecracker_type ∷ wasm_type ∷ local_type
        ∷ kubernetes_type ∷ lambda_type ∷ [])
      []
