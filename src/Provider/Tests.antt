-- ===== src/Provider/Tests.antt =====
-- Runs of the capabilities and the registry of types, and their theorems at concrete inputs.
use bastion.Base.{◌≡◌, refl, true, false, none, some, codes}
use bastion.Base.Chars.{is_whitespace}
use bastion.Sandbox.Errors.{ok, err, validation}
use bastion.Provider.Refs.{SocketRef, address}
use bastion.Provider.Config.{
  iam_role_creds, is_valid_aws, local_config_new, is_of_type, wasm_config, podman_config,
}
use bastion.Provider.Constraints.{no_constraints, has_capacity}
use bastion.Provider.Instance.{
  ProviderInstance, loading, active, new_instance, mark_active, mark_degraded, can_accept_sandboxes,
}
use bastion.Provider.Instance.Laws.{IsPlainName, new_instance-IsPlainName}
use bastion.Provider.Capabilities.{default_capabilities, ok, zero_value, try_new, supports_all}
use bastion.Provider.Types.{
  get, with_builtin_types, firecracker_type, vm_capabilities, container_capabilities,
}

capability_test :
    (supports_all vm_capabilities container_capabilities ≡ true)
    × (supports_all container_capabilities vm_capabilities ≡ false)
    × (try_new (record default_capabilities { max_cpu_count = 0 })
        ≡ zero_value (codes "max_cpu_count"))
unfolding supports_all try_new
capability_test = (refl, refl, refl)

firecracker_found : get (codes "firecracker") with_builtin_types ≡ some firecracker_type
unfolding get with_builtin_types
firecracker_found = refl

local_test :
    (is_valid_aws (iam_role_creds (codes "arn")) ≡ true)
    × (local_config_new (codes "  ") ≡ err (validation "workspace_dir"))
    × (is_of_type (codes "wasm") wasm_config ≡ true)
    × (has_capacity (record no_constraints { max_sandboxes = some 2 }) 2 ≡ false)
    × (address (SocketRef.ssh (codes "h:22") none none) ≡ codes "h:22")
unfolding is_valid_aws iam_role_creds local_config_new is_whitespace is_of_type wasm_config
    has_capacity address
local_test = (refl, refl, refl, refl, refl)

abbrev podman_instance : ProviderInstance
podman_instance = record {
  id = "1";
  type_id = codes "podman";
  name = codes "main";
  display_name = codes "Main";
  description = none;
  status = loading;
  config = podman_config;
  constraints = no_constraints;
  created_at = 5;
  updated_at = 5;
}

status_test :
    ((mark_active 9 podman_instance).0.status ≡ active)
    × ((mark_degraded 10 (mark_degraded 9 podman_instance).0).1 ≡ err (validation "transition"))
    × (can_accept_sandboxes podman_instance ≡ false)
unfolding mark_active mark_degraded can_accept_sandboxes
status_test = (refl, refl, refl)

instance_made :
    new_instance 5 "1"
      (codes "podman")
      (codes "main")
      (codes "Main")
      none
      podman_config
      no_constraints
    ≡ ok podman_instance
unfolding new_instance
instance_made = refl

new_instance-IsPlainName_example :
    IsPlainName (codes "main")
    × (podman_instance.name ≡ codes "main")
    × (podman_instance.status ≡ loading)
    × (podman_instance.created_at ≡ 5)
new_instance-IsPlainName_example =
    new_instance-IsPlainName 5 "1" (codes "podman") (codes "main") (codes "Main") none podman_config
      no_constraints podman_instance instance_made
