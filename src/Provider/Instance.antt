-- ===== src/Provider/Instance.antt =====
-- Instances of providers, crates/bastion-domain/src/provider/instance.rs. An identifier is a string, an
-- instant a number; the reading of the clock is an argument. A name's error keeps only that it is
-- one about the name.
pub mod Laws
use bastion.Base.{
  ℕ, Bool, true, false, ◌||◌, Option, List, [], ◌∷◌, any, nat_eq, if◌then◌else◌, Text, codes,
}
use bastion.Base.Chars.{is_empty, contains}
use Prim.Native.String.{String}
use bastion.Sandbox.Errors.{Result, ok, err, DomainError, validation}
use bastion.Provider.Config.{ProviderInstanceConfig}
use bastion.Provider.Constraints.{InstanceConstraints}

abbrev pub invalid_name_chars : Text
invalid_name_chars = b'/' ∷ b'\\' ∷ b':' ∷ 0 ∷ []

-- The loop over the invalid characters.
abbrev pub has_any : Text → Text → Bool
has_any [] name = false
has_any (c ∷ chars) name = any (nat_eq c) name || has_any chars name

-- Whether `is_valid_name` accepts the name.
unfoldable pub is_valid_name : Text → Bool
unfolding contains
is_valid_name name =
    if is_empty name
    then false
    else if contains name (codes "..")
    then false
    else if has_any invalid_name_chars name
    then false
    else true

pub data ProviderInstanceStatus : Type 0 where
  loading active degraded offline : ProviderInstanceStatus

unfoldable pub status_accepts : ProviderInstanceStatus → Bool
status_accepts active = true
status_accepts _ = false

unfoldable pub status_is_terminal : ProviderInstanceStatus → Bool
status_is_terminal offline = true
status_is_terminal _ = false

unfoldable pub status_is_operational : ProviderInstanceStatus → Bool
status_is_operational active = true
status_is_operational degraded = true
status_is_operational _ = false

unfoldable pub is_valid_change : ProviderInstanceStatus → ProviderInstanceStatus → Bool
is_valid_change loading active = true
is_valid_change loading degraded = true
is_valid_change loading offline = true
is_valid_change active degraded = true
is_valid_change active offline = true
is_valid_change degraded active = true
is_valid_change degraded offline = true
is_valid_change _ _ = false

pub record ProviderInstance : Type 0 where
  pub id : String
  pub type_id : Text
  pub name : Text
  pub display_name : Text
  pub description : Option Text
  pub status : ProviderInstanceStatus
  pub config : ProviderInstanceConfig
  pub constraints : InstanceConstraints
  pub created_at : ℕ
  pub updated_at : ℕ

unfoldable pub new_instance :
    ℕ
    → String
    → Text
    → Text
    → Text
    → Option Text
    → ProviderInstanceConfig
    → InstanceConstraints
    → Result ProviderInstance
unfolding is_valid_name
new_instance now id type_id name display_name description config constraints =
    if is_valid_name name
    then ok (record {
      id = id;
      type_id = type_id;
      name = name;
      display_name = display_name;
      description = description;
      status = loading;
      config = config;
      constraints = constraints;
      created_at = now;
      updated_at = now;
    })
    else err (validation "name")

-- A method returns the instance and its result.
unfoldable pub transition_to :
    ProviderInstanceStatus → ℕ → ProviderInstance → ProviderInstance × Result (Unit {0})
unfolding is_valid_change
transition_to target now i =
    if is_valid_change i.status target
    then (record i { status = target; updated_at = now }, ok tt)
    else (i, err (validation "transition"))

unfoldable pub mark_active : ℕ → ProviderInstance → ProviderInstance × Result (Unit {0})
unfolding transition_to
mark_active now i = transition_to active now i

unfoldable pub mark_degraded : ℕ → ProviderInstance → ProviderInstance × Result (Unit {0})
unfolding transition_to
mark_degraded now i = transition_to degraded now i

unfoldable pub mark_offline : ℕ → ProviderInstance → ProviderInstance × Result (Unit {0})
unfolding transition_to
mark_offline now i = transition_to offline now i

unfoldable pub mark_instance_failed : ℕ → ProviderInstance → ProviderInstance
mark_instance_failed now i = record i { status = offline; updated_at = now }

unfoldable pub can_accept_sandboxes : ProviderInstance → Bool
unfolding status_accepts
can_accept_sandboxes i = status_accepts i.status
