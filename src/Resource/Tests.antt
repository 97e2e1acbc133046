-- ===== src/Resource/Tests.antt =====
-- Runs of the resource names and the policy, and their theorems at concrete inputs.
use bastion.Base.{◌≡◌, ◌↔◌, refl, true, false, codes}
use bastion.Base.Chars.{is_empty, is_whitespace, trim}
use bastion.Base.Chars.Trim.{ends_in_space}
use bastion.Base.Chars.Split.{Lacks}
use bastion.Resource.Name.{
  ok, err, invalid_format, missing_resource_id, unknown_namespace, unknown_type, parse_name,
  to_string, is_sandbox, is_provider_instance, is_infra,
}
use bastion.Resource.Name.Laws.{IsId, parse_name-ok_iff, parse-to_string_iff}
use bastion.Resource.Factory
use bastion.Resource.Policy.{
  AuthContext, empty, execution_only, admin_only, read, write, execute, allowed, insufficient,
  readonly_only, authorize,
}
use bastion.Resource.Policy.Laws.{
  unguarded, administered, authorize-unguarded_iff, write_needs_admin,
}

parse_test :
    (parse_name (codes " brn:sandbox:sandbox:a1 ") ≡ ok (Factory.sandbox (codes "a1")))
    × (parse_name (codes "brn:sandbox:sandbox") ≡ err invalid_format)
    × (parse_name (codes "arn:sandbox:sandbox:a") ≡ err invalid_format)
    × (parse_name (codes "brn:sand:box:a") ≡ err (unknown_namespace (codes "sand")))
    × (parse_name (codes "brn:sandbox:sandbox/sub:a") ≡ err (unknown_type (codes "sandbox/sub")))
    × (parse_name (codes "brn:infra:pool: ") ≡ err missing_resource_id)
    × (to_string Factory.pool ≡ codes "brn:infra:pool:default")
unfolding parse_name is_whitespace to_string Factory.sandbox Factory.pool
parse_test = (refl, refl, refl, refl, refl, refl, refl)

query_test :
    (is_sandbox (Factory.sandbox (codes "a")) ≡ true)
    × (is_provider_instance (Factory.provider (codes "a")) ≡ false)
    × (is_provider_instance (Factory.provider_instance (codes "a")) ≡ true)
    × (is_infra Factory.config ≡ true)
unfolding is_sandbox is_provider_instance is_infra Factory.sandbox Factory.provider
    Factory.provider_instance Factory.config
query_test = (refl, refl, refl, refl)

parse_name-ok_iff_example :
    (parse_name (codes " brn:sandbox:sandbox:a1 ") ≡ ok (Factory.sandbox (codes "a1"))) ↔ (
      (trim (codes " brn:sandbox:sandbox:a1 ") ≡ to_string (Factory.sandbox (codes "a1")))
      × IsId (Factory.sandbox (codes "a1")).resource_id)
parse_name-ok_iff_example =
    parse_name-ok_iff (codes " brn:sandbox:sandbox:a1 ") (Factory.sandbox (codes "a1"))

parse-to_string_iff_example :
    (parse_name (to_string (Factory.sandbox (codes "a b"))) ≡ ok (Factory.sandbox (codes "a b")))
    ↔ ((is_empty (Factory.sandbox (codes "a b")).resource_id ≡ false)
        × Lacks b':' (Factory.sandbox (codes "a b")).resource_id
        × (ends_in_space (Factory.sandbox (codes "a b")).resource_id ≡ false))
parse-to_string_iff_example = parse-to_string_iff (Factory.sandbox (codes "a b"))

abbrev agent : AuthContext
agent = record { principal = codes "agent"; capabilities = execution_only }

abbrev operator : AuthContext
operator = record { principal = codes "operator"; capabilities = admin_only }

authorize_test :
    (authorize agent (Factory.sandbox (codes "a")) write ≡ allowed)
    × (authorize agent (Factory.provider (codes "p")) read
        ≡ insufficient readonly_only execution_only)
    × (authorize agent (Factory.provider (codes "p")) execute ≡ allowed)
unfolding authorize Factory.sandbox Factory.provider
authorize_test = (refl, refl, refl)

authorize-unguarded_iff_example :
    (authorize
        (record { principal = codes "guest"; capabilities = empty })
        (Factory.provider (codes "p"))
        execute
      ≡ allowed)
    ↔ (unguarded
          (Factory.provider (codes "p")).namespace
          (Factory.provider (codes "p")).resource_type
          execute
        ≡ true)
authorize-unguarded_iff_example =
    authorize-unguarded_iff (codes "guest") (Factory.provider (codes "p")) execute

write_pool : authorize operator Factory.pool write ≡ allowed
unfolding authorize Factory.pool
write_pool = refl

pool_administered : administered Factory.pool.namespace Factory.pool.resource_type ≡ true
unfolding Factory.pool
pool_administered = refl

write_needs_admin_example : operator.capabilities.admin ≡ true
write_needs_admin_example = write_needs_admin operator Factory.pool pool_administered write_pool
