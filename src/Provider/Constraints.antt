-- ===== src/Provider/Constraints.antt =====
-- The limits of an instance, crates/bastion-domain/src/provider/instance_constraints.rs. An error keeps
-- the field that it is about.
pub mod Laws
use bastion.Base.{ℕ, Bool, true, false, ◌&&◌, Option, none, some, ltb, leb, nat_eq, if◌then◌else◌}
use bastion.Sandbox.Errors.{Result, ok, err, validation}

pub record InstanceConstraints : Type 0 where
  pub max_sandboxes : Option ℕ
  pub max_memory_mb : Option ℕ
  pub max_cpu_count : Option ℕ

abbrev pub no_constraints : InstanceConstraints
no_constraints = record { max_sandboxes = none; max_memory_mb = none; max_cpu_count = none }

unfoldable pub with_max_sandboxes : ℕ → Result InstanceConstraints
with_max_sandboxes max =
    if nat_eq max 0
    then err (validation "max_sandboxes")
    else ok (record no_constraints { max_sandboxes = some max })

unfoldable pub with_max_memory_mb : ℕ → Result InstanceConstraints
with_max_memory_mb max =
    if nat_eq max 0
    then err (validation "max_memory_mb")
    else ok (record no_constraints { max_memory_mb = some max })

unfoldable pub with_max_cpu_count : ℕ → Result InstanceConstraints
with_max_cpu_count max =
    if nat_eq max 0
    then err (validation "max_cpu_count")
    else ok (record no_constraints { max_cpu_count = some max })

-- `if let Some(v) = limit { if v == 0 { .. } }`
abbrev is_zero : Option ℕ → Bool
is_zero none = false
is_zero (some v) = nat_eq v 0

unfoldable pub create : Option ℕ → Option ℕ → Option ℕ → Result InstanceConstraints
create max_sandboxes max_memory_mb max_cpu_count =
    if is_zero max_sandboxes
    then err (validation "max_sandboxes")
    else if is_zero max_memory_mb
    then err (validation "max_memory_mb")
    else if is_zero max_cpu_count
    then err (validation "max_cpu_count")
    else ok (record {
      max_sandboxes = max_sandboxes;
      max_memory_mb = max_memory_mb;
      max_cpu_count = max_cpu_count;
    })

-- `is_none_or(|v| v >= 1)`.
abbrev at_least_one : Option ℕ → Bool
at_least_one none = true
at_least_one (some v) = leb 1 v

unfoldable pub is_valid : InstanceConstraints → Bool
is_valid c =
    at_least_one c.max_sandboxes && at_least_one c.max_memory_mb && at_least_one c.max_cpu_count

unfoldable pub has_capacity : InstanceConstraints → ℕ → Bool
has_capacity c current_count = elim c.max_sandboxes [
  | none ↦ true
  | some max ↦ ltb current_count max
]
