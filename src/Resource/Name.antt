-- ===== src/Resource/Name.antt =====
-- The resource names of crates/bastion-domain/src/shared/brn.rs.
pub mod Laws
use bastion.Base.{
  ℕ, Bool, true, false, ◌&&◌, List, [], ◌∷◌, ◌++◌, if◌then◌else◌, drop, Text, text_eq, codes, ◌==◌,
}
use bastion.Base.Chars.{is_empty, trim, starts_with, split}

pub data BrnNamespace : Type 0 where
  sandbox project provider template catalog infra : BrnNamespace

pub data BrnType : Type 0 where
  sandbox project provider instance_ template artifact : BrnType
  doctor assertion advice experience pool worker config secret : BrnType

pub record Brn : Type 0 where
  pub namespace : BrnNamespace
  pub resource_type : BrnType
  pub resource_id : Text

pub data BrnError : Type 0 where
  invalid_format : BrnError
  unknown_namespace : Text → BrnError
  unknown_type : Text → BrnError
  missing_resource_id : BrnError

pub data Result {ℓ} (A : Type ℓ) : Type ℓ where
  ok : A → Result A
  err : BrnError → Result A

infixl 5 ◌>>=◌
abbrev ◌>>=◌ {ℓ κ} : {A : Type ℓ} {B : Type κ} → Result A → (A → Result B) → Result B
ok a >>= f = f a
err e >>= f = err e

unfoldable pub parse_namespace : Text → Result BrnNamespace
parse_namespace s =
    if s == codes "sandbox"
    then ok BrnNamespace.sandbox
    else if s == codes "project"
    then ok BrnNamespace.project
    else if s == codes "provider"
    then ok BrnNamespace.provider
    else if s == codes "template"
    then ok BrnNamespace.template
    else if s == codes "catalog"
    then ok BrnNamespace.catalog
    else if s == codes "infra"
    then ok BrnNamespace.infra
    else err (unknown_namespace s)

unfoldable pub namespace_text : BrnNamespace → Text
namespace_text BrnNamespace.sandbox = codes "sandbox"
namespace_text BrnNamespace.project = codes "project"
namespace_text BrnNamespace.provider = codes "provider"
namespace_text BrnNamespace.template = codes "template"
namespace_text BrnNamespace.catalog = codes "catalog"
namespace_text BrnNamespace.infra = codes "infra"

unfoldable pub parse_type : Text → Result BrnType
parse_type s =
    if s == codes "sandbox"
    then ok BrnType.sandbox
    else if s == codes "project"
    then ok BrnType.project
    else if s == codes "provider"
    then ok BrnType.provider
    else if s == codes "instance"
    then ok BrnType.instance_
    else if s == codes "template"
    then ok BrnType.template
    else if s == codes "artifact"
    then ok BrnType.artifact
    else if s == codes "doctor"
    then ok BrnType.doctor
    else if s == codes "assertion"
    then ok BrnType.assertion
    else if s == codes "advice"
    then ok BrnType.advice
    else if s == codes "experience"
    then ok BrnType.experience
    else if s == codes "pool"
    then ok BrnType.pool
    else if s == codes "worker"
    then ok BrnType.worker
    else if s == codes "config"
    then ok BrnType.config
    else if s == codes "secret"
    then ok BrnType.secret
    else err (unknown_type s)

unfoldable pub type_text : BrnType → Text
type_text BrnType.sandbox = codes "sandbox"
type_text BrnType.project = codes "project"
type_text BrnType.provider = codes "provider"
type_text BrnType.instance_ = codes "instance"
type_text BrnType.template = codes "template"
type_text BrnType.artifact = codes "artifact"
type_text BrnType.doctor = codes "doctor"
type_text BrnType.assertion = codes "assertion"
type_text BrnType.advice = codes "advice"
type_text BrnType.experience = codes "experience"
type_text BrnType.pool = codes "pool"
type_text BrnType.worker = codes "worker"
type_text BrnType.config = codes "config"
type_text BrnType.secret = codes "secret"

-- What follows the prefix, split at the colons.
parse_parts : List Text → Result Brn
unfolding parse_namespace parse_type
parse_parts (ns ∷ ty ∷ id ∷ []) = do
  namespace ← parse_namespace ns
  resource_type ← parse_type ty
  if is_empty id
      then err missing_resource_id
      else ok (record { namespace = namespace; resource_type = resource_type; resource_id = id })
parse_parts _ = err invalid_format

unfoldable pub parse_name : Text → Result Brn
unfolding parse_parts split starts_with trim
parse_name s =
    let trimmed = trim s in
    if starts_with trimmed (codes "brn:")
    then parse_parts (split b':' (drop 4 trimmed))
    else err invalid_format

unfoldable pub to_string : Brn → Text
unfolding namespace_text type_text
to_string b =
    codes "brn:"
    ++ (namespace_text b.namespace ++ b':' ∷ (type_text b.resource_type ++ b':' ∷ b.resource_id))

abbrev in_sandbox : BrnNamespace → Bool
in_sandbox BrnNamespace.sandbox = true
in_sandbox _ = false

abbrev in_provider : BrnNamespace → Bool
in_provider BrnNamespace.provider = true
in_provider _ = false

abbrev in_infra : BrnNamespace → Bool
in_infra BrnNamespace.infra = true
in_infra _ = false

abbrev of_instance : BrnType → Bool
of_instance BrnType.instance_ = true
of_instance _ = false

unfoldable pub is_sandbox : Brn → Bool
is_sandbox b = in_sandbox b.namespace

unfoldable pub is_provider_instance : Brn → Bool
is_provider_instance b = in_provider b.namespace && of_instance b.resource_type

unfoldable pub is_infra : Brn → Bool
is_infra b = in_infra b.namespace
