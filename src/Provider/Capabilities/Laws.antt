-- ===== src/Provider/Capabilities/Laws.antt =====
-- The order on capabilities that `supports_all` of crates/bastion-domain/src/provider/capabilities.rs is.
use bastion.Base.{◌≡◌, Bool, true, not, ◌||◌, arith}
use bastion.Provider.Capabilities.{ProviderCapabilities, supports_all}

implies_trans : (a b c : Bool) → (not b || a) ≡ true → (not c || b) ≡ true → (not c || a) ≡ true
implies_trans a b c h k = ground arith

supports_all_refl : (a : ProviderCapabilities) → supports_all a a ≡ true
unfolding supports_all
supports_all_refl a = ground arith

supports_all_trans :
    (a b c : ProviderCapabilities)
    → supports_all a b ≡ true
    → supports_all b c ≡ true
    → supports_all a c ≡ true
unfolding supports_all
supports_all_trans a b c h k = ground arith

-- A provider supports all that it has itself; and one that supports all that a second one has supports
-- all that a third one has, whenever the second does.
pub supports_all-order :
    (a b c : ProviderCapabilities)
    → (supports_all a a ≡ true)
      × (supports_all a b ≡ true → supports_all b c ≡ true → supports_all a c ≡ true)
supports_all-order a b c = (supports_all_refl a, supports_all_trans a b c)
