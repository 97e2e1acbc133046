-- ===== src/Resource/Policy/Laws.antt =====
-- What the policy of crates/bastion-domain/src/shared/brn.rs lets through.
use bastion.Base.{◌≡◌, ◌↔◌, Bool, true, false, arith, Text}
use bastion.Resource.Name.{Brn, BrnNamespace, BrnType}
use bastion.Resource.Policy.{
  CapabilitySet, AuthContext, Action, write, execute, allowed, includes, empty, of_parts,
  catalog_capabilities, authorize,
}

-- The types of names that the catalog knows.
abbrev of_catalog : BrnType → Bool
of_catalog BrnType.experience = true
of_catalog BrnType.doctor = true
of_catalog BrnType.assertion = true
of_catalog BrnType.advice = true
of_catalog _ = false

abbrev pub loose : BrnType → Action → Bool
loose BrnType.experience action = false
loose BrnType.doctor action = false
loose BrnType.assertion execute = true
loose BrnType.assertion _ = false
loose BrnType.advice execute = true
loose BrnType.advice _ = false
loose _ action = true

-- The calls for which the policy asks for nothing.
abbrev pub unguarded : BrnNamespace → BrnType → Action → Bool
unguarded BrnNamespace.provider ty execute = true
unguarded BrnNamespace.template ty execute = true
unguarded BrnNamespace.infra ty execute = true
unguarded BrnNamespace.catalog ty action = loose ty action
unguarded _ ty action = false

includes-loose :
    (ty : BrnType) (action : Action)
    → includes empty (catalog_capabilities ty action) ≡ loose ty action
unfolding catalog_capabilities
includes-loose ty action = ground arith

includes-unguarded :
    (ns : BrnNamespace) (ty : BrnType) (action : Action)
    → includes empty (of_parts ns ty action) ≡ unguarded ns ty action
unfolding of_parts
includes-unguarded ns ty action = ground (arith, includes-loose ty action)

-- What a caller without any capability is allowed to do is exactly this: to execute on the names of
-- the namespaces provider, template and infra; in the catalog, to execute on assertions and advice,
-- and every action on a name whose type is none of the catalog's four.
pub authorize-unguarded_iff :
    (principal : Text) (b : Brn) (action : Action)
    → (authorize (record { principal = principal; capabilities = empty }) b action ≡ allowed)
      ↔ (unguarded b.namespace b.resource_type action ≡ true)
unfolding authorize
authorize-unguarded_iff principal b action =
    ground (arith, includes-unguarded b.namespace b.resource_type action)

-- Where a write asks for the capability of administration.
abbrev pub administered : BrnNamespace → BrnType → Bool
administered BrnNamespace.sandbox ty = false
administered BrnNamespace.catalog BrnType.doctor = true
administered BrnNamespace.catalog BrnType.assertion = true
administered BrnNamespace.catalog BrnType.advice = true
administered BrnNamespace.catalog _ = false
administered _ ty = true

asks_admin :
    (ns : BrnNamespace) (ty : BrnType) (held : CapabilitySet)
    → administered ns ty ≡ true
    → includes held (of_parts ns ty write) ≡ true
    → held.admin ≡ true
unfolding of_parts
asks_admin BrnNamespace.sandbox ty held h k = cc
asks_admin BrnNamespace.project ty held h k = ground arith
asks_admin BrnNamespace.provider ty held h k = ground arith
asks_admin BrnNamespace.template ty held h k = ground arith
asks_admin BrnNamespace.infra ty held h k = ground arith
asks_admin BrnNamespace.catalog ty held h k = ground arith

-- Whoever is allowed to write a name of a project, provider, template or of the infrastructure, or a
-- doctor, an assertion or an advice of the catalog, holds the capability of administration.
pub write_needs_admin :
    (auth : AuthContext) (b : Brn)
    → administered b.namespace b.resource_type ≡ true
    → authorize auth b write ≡ allowed
    → auth.capabilities.admin ≡ true
unfolding authorize
write_needs_admin auth b h k =
    ground (arith, asks_admin b.namespace b.resource_type auth.capabilities)
