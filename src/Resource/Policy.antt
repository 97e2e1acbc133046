-- ===== src/Resource/Policy.antt =====
-- Capabilities and the policy that asks for them, crates/bastion-domain/src/shared/brn.rs. A set of
-- capabilities is its three flags.
pub mod Laws
use bastion.Base.{Bool, true, false, not, ◌&&◌, ◌||◌, if◌then◌else◌, Text}
use bastion.Resource.Name.{Brn, BrnNamespace, BrnType}

pub record CapabilitySet : Type 0 where
  pub execution : Bool
  pub admin : Bool
  pub readonly : Bool

abbrev pub empty : CapabilitySet
empty = record { execution = false; admin = false; readonly = false }

abbrev pub execution_only : CapabilitySet
execution_only = record empty { execution = true }

abbrev pub admin_only : CapabilitySet
admin_only = record empty { admin = true }

abbrev pub readonly_only : CapabilitySet
readonly_only = record empty { readonly = true }

-- `|` and `contains` of the crate `bitflags`, flag by flag.
abbrev union : CapabilitySet → CapabilitySet → CapabilitySet
union a b = record {
  execution = a.execution || b.execution;
  admin = a.admin || b.admin;
  readonly = a.readonly || b.readonly;
}

abbrev pub includes : CapabilitySet → CapabilitySet → Bool
includes a b =
    (not b.execution || a.execution) && ((not b.admin || a.admin) && (not b.readonly || a.readonly))

pub record AuthContext : Type 0 where
  pub principal : Text
  pub capabilities : CapabilitySet

pub data Action : Type 0 where
  read write execute : Action

pub data Decision : Type 0 where
  allowed : Decision
  insufficient : CapabilitySet → CapabilitySet → Decision

abbrev by_action : CapabilitySet → CapabilitySet → CapabilitySet → Action → CapabilitySet
by_action on_read on_write on_execute read = on_read
by_action on_read on_write on_execute write = on_write
by_action on_read on_write on_execute execute = on_execute

catalog_capabilities : BrnType → Action → CapabilitySet
catalog_capabilities BrnType.experience action = readonly_only
catalog_capabilities BrnType.doctor action = by_action readonly_only admin_only admin_only action
catalog_capabilities BrnType.assertion action = by_action readonly_only admin_only empty action
catalog_capabilities BrnType.advice action = by_action readonly_only admin_only empty action
catalog_capabilities _ action = empty

of_parts : BrnNamespace → BrnType → Action → CapabilitySet
unfolding catalog_capabilities
of_parts BrnNamespace.sandbox ty action = execution_only
of_parts BrnNamespace.project ty action =
    by_action readonly_only (union execution_only admin_only) execution_only action
of_parts BrnNamespace.provider ty action = by_action readonly_only admin_only empty action
of_parts BrnNamespace.template ty action = by_action readonly_only admin_only empty action
of_parts BrnNamespace.catalog ty action = catalog_capabilities ty action
of_parts BrnNamespace.infra ty action = by_action readonly_only admin_only empty action

unfoldable pub required_capabilities : Brn → Action → CapabilitySet
unfolding of_parts
required_capabilities b action = of_parts b.namespace b.resource_type action

unfoldable pub authorize : AuthContext → Brn → Action → Decision
unfolding required_capabilities
authorize auth b action =
    let required = required_capabilities b action in
    if includes auth.capabilities required then allowed else insufficient required auth.capabilities
