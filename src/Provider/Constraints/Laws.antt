-- ===== src/Provider/Constraints/Laws.antt =====
-- What crates/bastion-domain/src/provider/instance_constraints.rs accepts.
use bastion.Base.{◌≡◌, ◌↔◌, true, arith}
use bastion.Sandbox.Errors.{ok}
use bastion.Provider.Constraints.{InstanceConstraints, create, is_valid, has_capacity}

accepted :
    (c : InstanceConstraints)
    → create c.max_sandboxes c.max_memory_mb c.max_cpu_count ≡ ok c
    → is_valid c ≡ true
unfolding create is_valid
accepted c h = ground arith

accept :
    (c : InstanceConstraints)
    → is_valid c ≡ true
    → create c.max_sandboxes c.max_memory_mb c.max_cpu_count ≡ ok c
unfolding create is_valid
accept c h = ground arith

room : (c : InstanceConstraints) → is_valid c ≡ true → has_capacity c 0 ≡ true
unfolding is_valid has_capacity
room c h = ground arith

-- Limits are accepted exactly when the value that they make is valid, and an instance whose limits
-- were accepted has room for a first sandbox.
pub create-ok_iff :
    (c : InstanceConstraints)
    → ((create c.max_sandboxes c.max_memory_mb c.max_cpu_count ≡ ok c) ↔ (is_valid c ≡ true))
      × (is_valid c ≡ true → has_capacity c 0 ≡ true)
unfolding create is_valid has_capacity
create-ok_iff c = ((accepted c, accept c), room c)
