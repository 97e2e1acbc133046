-- ===== src/Provider/Types/Laws.antt =====
-- The builtin types of crates/bastion-domain/src/provider/type_registry.rs.
use mathlib.Core.Path.{subst}
use bastion.Base.{
  ◌≡◌, refl, ◌∙◌, some, [], ◌∷◌, Text, text_eq, text_beq_iff, ◌==◌, All, Bool-cases, inl, inr,
}
use bastion.Base.Map.{lookup, insert}
use bastion.Provider.Capabilities.{ok, try_new}
use bastion.Provider.Types.{ProviderType, ProviderTypeRegistry, get, with_builtin_types}

-- Each type stands under its id, and has been accepted by `try_new`.
abbrev IsEntry : Text × ProviderType → Type 0
IsEntry (id, t) = (t.id ≡ id) × (try_new t.capabilities ≡ ok t.capabilities)

lookup-IsEntry :
    (types : ProviderTypeRegistry) (id : Text) (t : ProviderType)
    → All IsEntry types
    → lookup id types ≡ some t
    → IsEntry (id, t)
unfolding lookup
lookup-IsEntry [] id t h k = cc
lookup-IsEntry ((j, u) ∷ types) id t (h, hs) k = elim (Bool-cases (j == id)) [
  | inl hit ↦
      let here : some u ≡ some t = rw hit at k in
      let same : u ≡ t = cc in
      let key : j ≡ id = (text_beq_iff j id).0 hit in
      subst (λ (v : ProviderType). IsEntry (id, v)) same (h.0 ∙ key, h.1)
  | inr miss ↦
      let later : lookup id types ≡ some t = rw miss at k in lookup-IsEntry types id t hs later
]

builtin-All : All IsEntry with_builtin_types
unfolding with_builtin_types try_new insert
builtin-All = (
  (refl, refl),
  (
    (refl, refl),
    (
      (refl, refl),
      ((refl, refl), ((refl, refl), ((refl, refl), ((refl, refl), ((refl, refl), tt))))),
    ),
  ),
)

-- Every builtin type that the registry gives for an id carries that id, and its capabilities are ones
-- that `try_new` accepts, so that making the registry does not panic.
pub builtin-valid :
    (id : Text) (t : ProviderType)
    → get id with_builtin_types ≡ some t
    → (t.id ≡ id) × (try_new t.capabilities ≡ ok t.capabilities)
unfolding get
builtin-valid id t h = lookup-IsEntry with_builtin_types id t builtin-All h
