-- ===== src/Base/Map.antt =====
-- `HashMap` and `DashMap` as an association list: an insertion replaces the entry of its key.
use mathlib.Core.Path.{◌≡◌, refl}
use mathlib.Core.Option.{Option, none, some}
use mathlib.Core.List.{List, [], ◌∷◌}
use native.Mathlib.Omega.{arith}
use bastion.Base.Tests.{if◌then◌else◌}
use bastion.Base.Classes.{Eq, ◌==◌}

module _ {ℓ κ} {K : Type ℓ} {V : Type κ} ⦃e : Eq K⦄ where
  unfoldable pub lookup : K → List (K × V) → Option V
  lookup key [] = none
  lookup key ((head, value) ∷ rest) = if head == key then some value else lookup key rest

  unfoldable pub remove : K → List (K × V) → List (K × V)
  remove key [] = []
  remove key ((head, value) ∷ rest) =
      if head == key then remove key rest else (head, value) ∷ remove key rest

  unfoldable pub insert : K → V → List (K × V) → List (K × V)
  insert key new [] = (key, new) ∷ []
  insert key new ((head, value) ∷ rest) =
      if head == key then (key, new) ∷ rest else (head, value) ∷ insert key new rest

  pub lookup-remove :
      (key other : K) (m : List (K × V))
      → lookup other (remove key m) ≡ (if key == other then none else lookup other m)
  unfolding lookup remove
  lookup-remove key other [] = ground arith
  lookup-remove key other ((head, value) ∷ rest) =
      let in_rest = lookup-remove key other rest in
      ground (arith, e.beq_iff key other, e.beq_iff head key, e.beq_iff head other, in_rest)

  pub lookup-insert :
      (key other : K) (new : V) (m : List (K × V))
      → lookup other (insert key new m) ≡ (if key == other then some new else lookup other m)
  unfolding lookup insert
  lookup-insert key other new [] = refl
  lookup-insert key other new ((head, value) ∷ rest) =
      let in_rest = lookup-insert key other new rest in
      ground (arith, e.beq_iff key other, e.beq_iff head key, e.beq_iff head other, in_rest)
