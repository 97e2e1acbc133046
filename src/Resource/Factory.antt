-- ===== src/Resource/Factory.antt =====
-- The factories of names in crates/bastion-domain/src/shared/brn.rs.
use bastion.Base.{Text, codes}
use bastion.Resource.Name.{Brn, BrnNamespace, BrnType}

abbrev of : BrnNamespace → BrnType → Text → Brn
of ns ty id = record { namespace = ns; resource_type = ty; resource_id = id }

unfoldable pub sandbox : Text → Brn
sandbox id = of BrnNamespace.sandbox BrnType.sandbox id

unfoldable pub project : Text → Brn
project id = of BrnNamespace.project BrnType.project id

unfoldable pub provider : Text → Brn
provider id = of BrnNamespace.provider BrnType.provider id

unfoldable pub provider_instance : Text → Brn
provider_instance id = of BrnNamespace.provider BrnType.instance_ id

unfoldable pub template : Text → Brn
template id = of BrnNamespace.template BrnType.template id

unfoldable pub artifact : Text → Brn
artifact id = of BrnNamespace.template BrnType.artifact id

unfoldable pub doctor : Text → Brn
doctor id = of BrnNamespace.catalog BrnType.doctor id

unfoldable pub assertion : Text → Brn
assertion id = of BrnNamespace.catalog BrnType.assertion id

unfoldable pub advice : Text → Brn
advice id = of BrnNamespace.catalog BrnType.advice id

unfoldable pub experience : Text → Brn
experience id = of BrnNamespace.catalog BrnType.experience id

unfoldable pub pool : Brn
pool = of BrnNamespace.infra BrnType.pool (codes "default")

unfoldable pub worker : Text → Brn
worker id = of BrnNamespace.infra BrnType.worker id

unfoldable pub config : Brn
config = of BrnNamespace.infra BrnType.config (codes "default")

unfoldable pub secret : Text → Brn
secret id = of BrnNamespace.infra BrnType.secret id
