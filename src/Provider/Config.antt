-- ===== src/Provider/Config.antt =====
-- The configuration of an instance, crates/bastion-domain/src/provider/instance_config.rs. The accessors
-- of its fields are the fields of the record. An error keeps the field that it is about.
pub mod Laws
use bastion.Base.{
  Bool, true, false, not, ◌&&◌, Option, none, some, List, [], if◌then◌else◌, Text, text_eq, ◌==◌,
  codes,
}
use bastion.Base.Chars.{is_empty, trim}
use bastion.Sandbox.Errors.{Result, ok, err, validation}
use bastion.Provider.Refs.{
  SocketRef, MountRef, ContainerNetworkMode, ImageReference, WorkerBinarySource,
}

pub data WasmRuntimeKind : Type 0 where
  wasmtime wasm_edge wamr wasmer : WasmRuntimeKind

pub record WasmRuntime : Type 0 where
  pub kind : WasmRuntimeKind
  pub binary_path : Option Text

unfoldable pub new_runtime : WasmRuntimeKind → WasmRuntime
new_runtime kind = record { kind = kind; binary_path = none }

pub data AwsCredentialsKind : Type 0 where
  static profile iam_role web_identity : AwsCredentialsKind

pub record AwsCredentials : Type 0 where
  pub kind : AwsCredentialsKind
  pub access_key_id : Option Text
  pub secret_access_key : Option Text
  pub profile_name : Option Text
  pub role_arn : Option Text
  pub session_name : Option Text

unfoldable pub iam_role_creds : Text → AwsCredentials
iam_role_creds role_arn = record {
  kind = iam_role;
  access_key_id = none;
  secret_access_key = none;
  profile_name = none;
  role_arn = some role_arn;
  session_name = none;
}

-- `s.trim().is_empty()`.
abbrev pub is_blank : Text → Bool
is_blank s = is_empty (trim s)

unfoldable pub static_creds : Text → Text → Result AwsCredentials
unfolding trim
static_creds access_key_id secret_access_key =
    if is_blank access_key_id
    then err (validation "access_key_id")
    else if is_blank secret_access_key
    then err (validation "secret_access_key")
    else ok (record {
      kind = static;
      access_key_id = some access_key_id;
      secret_access_key = some secret_access_key;
      profile_name = none;
      role_arn = none;
      session_name = none;
    })

abbrev is_some : Option Text → Bool
is_some none = false
is_some (some s) = true

abbrev has_credentials : AwsCredentialsKind → AwsCredentials → Bool
has_credentials static c = is_some c.access_key_id && is_some c.secret_access_key
has_credentials profile c = is_some c.profile_name
has_credentials iam_role c = is_some c.role_arn
has_credentials web_identity c = is_some c.role_arn

unfoldable pub is_valid_aws : AwsCredentials → Bool
is_valid_aws c = has_credentials c.kind c

pub data K8sCredentialsKind : Type 0 where
  in_cluster kubeconfig token_file : K8sCredentialsKind

pub record KubernetesCredentials : Type 0 where
  pub kind : K8sCredentialsKind
  pub kubeconfig_path : Option Text
  pub token_file_path : Option Text
  pub namespace : Option Text

abbrev of_kind : K8sCredentialsKind → KubernetesCredentials
of_kind kind = record {
  kind = kind;
  kubeconfig_path = none;
  token_file_path = none;
  namespace = none;
}

unfoldable pub in_cluster_creds : KubernetesCredentials
in_cluster_creds = of_kind in_cluster

unfoldable pub kubeconfig_creds : Text → KubernetesCredentials
kubeconfig_creds path = record (of_kind kubeconfig) { kubeconfig_path = some path }

unfoldable pub token_file_creds : Text → KubernetesCredentials
token_file_creds path = record (of_kind token_file) { token_file_path = some path }

abbrev has_k8s : K8sCredentialsKind → KubernetesCredentials → Bool
has_k8s in_cluster c = true
has_k8s kubeconfig c = is_some c.kubeconfig_path
has_k8s token_file c = is_some c.token_file_path

unfoldable pub is_valid_k8s : KubernetesCredentials → Bool
is_valid_k8s c = has_k8s c.kind c

pub record FirecrackerConfig : Type 0 where
  pub firecracker_binary : Option Text
  pub kernel : Option Text
  pub rootfs : Option Text
  pub worker_binary : Option WorkerBinarySource
  pub boot_args : Option Text

abbrev pub new_firecracker : FirecrackerConfig
new_firecracker = record {
  firecracker_binary = none;
  kernel = none;
  rootfs = none;
  worker_binary = none;
  boot_args = none;
}

pub record KubernetesConfig : Type 0 where
  pub cluster_endpoint : Option Text
  pub namespace : Option Text
  pub credentials : Option KubernetesCredentials
  pub default_volume_snapshot_class : Option Text

abbrev pub new_kubernetes : KubernetesConfig
new_kubernetes = record {
  cluster_endpoint = none;
  namespace = none;
  credentials = none;
  default_volume_snapshot_class = none;
}

pub record LambdaConfig : Type 0 where
  pub region : Text
  pub credentials : Option AwsCredentials

unfoldable pub new_lambda : Text → Result LambdaConfig
unfolding trim
new_lambda region =
    if is_blank region
    then err (validation "region")
    else ok (record { region = region; credentials = none })

pub record LocalConfig : Type 0 where
  pub workspace_dir : Text

unfoldable pub new_local : Text → Result LocalConfig
unfolding trim
new_local workspace_dir =
    if is_blank workspace_dir
    then err (validation "workspace_dir")
    else ok (record { workspace_dir = workspace_dir })

pub record ProviderInstanceConfig : Type 0 where
  pub provider_type : Text
  pub socket : Option SocketRef
  pub image : Option ImageReference
  pub worker_binary : Option WorkerBinarySource
  pub mounts : List MountRef
  pub network_mode : Option ContainerNetworkMode
  pub runsc_binary : Option Text
  pub rootfs_dir : Option Text
  pub firecracker_config : Option FirecrackerConfig
  pub wasm_runtime : Option WasmRuntime
  pub kubernetes_config : Option KubernetesConfig
  pub lambda_config : Option LambdaConfig
  pub local_config : Option LocalConfig

abbrev bare : Text → ProviderInstanceConfig
bare provider_type = record {
  provider_type = provider_type;
  socket = none;
  image = none;
  worker_binary = none;
  mounts = [];
  network_mode = none;
  runsc_binary = none;
  rootfs_dir = none;
  firecracker_config = none;
  wasm_runtime = none;
  kubernetes_config = none;
  lambda_config = none;
  local_config = none;
}

abbrev pub podman_config : ProviderInstanceConfig
podman_config = bare (codes "podman")

abbrev pub docker_config : ProviderInstanceConfig
docker_config = bare (codes "docker")

abbrev pub gvisor_config : ProviderInstanceConfig
gvisor_config = bare (codes "gvisor")

abbrev pub firecracker_config_new : ProviderInstanceConfig
firecracker_config_new = record (bare (codes "firecracker")) {
  firecracker_config = some new_firecracker;
}

unfoldable pub wasm_config : ProviderInstanceConfig
unfolding new_runtime
wasm_config = record (bare (codes "wasm")) { wasm_runtime = some (new_runtime wasmtime) }

abbrev with_local : Result LocalConfig → Result ProviderInstanceConfig
with_local (ok c) = ok (record (bare (codes "local")) { local_config = some c })
with_local (err e) = err e

unfoldable pub local_config_new : Text → Result ProviderInstanceConfig
unfolding new_local
local_config_new workspace_dir = with_local (new_local workspace_dir)

abbrev pub kubernetes_config_new : ProviderInstanceConfig
kubernetes_config_new = record (bare (codes "kubernetes")) {
  kubernetes_config = some new_kubernetes;
}

abbrev with_lambda : Result LambdaConfig → Result ProviderInstanceConfig
with_lambda (ok c) = ok (record (bare (codes "lambda")) { lambda_config = some c })
with_lambda (err e) = err e

unfoldable pub lambda_config_new : Text → Result ProviderInstanceConfig
unfolding new_lambda
lambda_config_new region = with_lambda (new_lambda region)

-- `is_podman` and its seven siblings compare the type's name.
unfoldable pub is_of_type : Text → ProviderInstanceConfig → Bool
is_of_type name c = c.provider_type == name

unfoldable pub is_valid_local : ProviderInstanceConfig → Bool
unfolding trim
is_valid_local c = elim c.local_config [ none ↦ false | some l ↦ not (is_blank l.workspace_dir) ]

unfoldable pub is_valid_lambda : ProviderInstanceConfig → Bool
unfolding trim
is_valid_lambda c = elim c.lambda_config [ none ↦ false | some l ↦ not (is_blank l.region) ]
