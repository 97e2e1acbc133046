-- ===== src/Base/Chars/Split.antt =====
-- Text that is split at a character.
use mathlib.Core.Path.{◌≡◌, refl, sym, ap}
use mathlib.Core.Logic.{inl, inr}
use mathlib.Core.Bool.{true, false}
use mathlib.Core.List.{List, [], ◌∷◌, ◌++◌}
use native.Mathlib.Omega.{arith}
use Prim.Native.Nat.{ℕ}
use bastion.Base.Tests.{Bool-cases, nat_eq, nat_eq_iff}
use bastion.Base.Lists.{any, All, drop, length}
use bastion.Base.Classes.{Text}
use bastion.Base.Chars.{split, attach, starts_with}

-- The character does not occur in the text.
abbrev pub Lacks : ℕ → Text → Type 0
Lacks d s = any (λ c. nat_eq c d) s ≡ false

abbrev pub join : ℕ → List Text → Text
join d [] = []
join d (part ∷ []) = part
join d (part ∷ next ∷ parts) = part ++ d ∷ join d (next ∷ parts)

join-attach : (d c : ℕ) (parts : List Text) → join d (attach c parts) ≡ c ∷ join d parts
unfolding attach
join-attach d c [] = refl
join-attach d c (part ∷ []) = refl
join-attach d c (part ∷ next ∷ parts) = refl

-- A split gives at least one part.
split-cons : (d : ℕ) (s : Text) → (part : Text) × (parts : List Text) × (split d s ≡ part ∷ parts)
unfolding split attach
split-cons d [] = ([], [], refl)
split-cons d (c ∷ s) = elim (Bool-cases (nat_eq c d)) [
  | inl hit ↦ ([], split d s, rw hit refl)
  | inr miss ↦ let (part, parts, e) = split-cons d s in (c ∷ part, parts, rw (miss, e) refl)
]

join-nil_cons :
    (d : ℕ) (part : Text) (parts : List Text)
    → join d ([] ∷ part ∷ parts) ≡ d ∷ join d (part ∷ parts)
join-nil_cons d part parts = refl

pub join-split : (d : ℕ) (s : Text) → join d (split d s) ≡ s
unfolding split
join-split d [] = refl
join-split d (c ∷ s) = elim (Bool-cases (nat_eq c d)) [
  | inl hit ↦
      let (part, parts, e) = split-cons d s in
      let ih : join d (part ∷ parts) ≡ s = rw (← e) (join-split d s) in
      rw (hit, e, ih) (ap (λ x. x ∷ s) (sym ((nat_eq_iff c d).0 hit)))
  | inr miss ↦ rw (miss, join-attach d c (split d s), join-split d s) refl
]

attach-Lacks :
    (d c : ℕ) (parts : List Text)
    → nat_eq c d ≡ false
    → All (Lacks d) parts
    → All (Lacks d) (attach c parts)
unfolding attach
attach-Lacks d c [] miss h = (rw miss refl, tt)
attach-Lacks d c (part ∷ parts) miss h = (rw miss h.0, h.1)

pub split-Lacks : (d : ℕ) (s : Text) → All (Lacks d) (split d s)
unfolding split
split-Lacks d [] = (refl, tt)
split-Lacks d (c ∷ s) = elim (Bool-cases (nat_eq c d)) [
  | inl hit ↦ rw hit (refl, split-Lacks d s)
  | inr miss ↦ rw miss (attach-Lacks d c (split d s) miss (split-Lacks d s))
]

pub split-whole : (d : ℕ) (s : Text) → Lacks d s → split d s ≡ s ∷ []
unfolding split attach
split-whole d [] h = refl
split-whole d (c ∷ s) h =
    let miss : nat_eq c d ≡ false = ground arith in
    let rest : Lacks d s = ground arith in rw (miss, split-whole d s rest) refl

pub split-front :
    (d : ℕ) (front back : Text) → Lacks d front → split d (front ++ d ∷ back) ≡ front ∷ split d back
unfolding split attach
split-front d [] back h = let hit : nat_eq d d ≡ true = ground arith in rw hit refl
split-front d (c ∷ front) back h =
    let miss : nat_eq c d ≡ false = ground arith in
    let rest : Lacks d front = ground arith in rw (miss, split-front d front back rest) refl

pub starts_with-split :
    (s front : Text) → starts_with s front ≡ true → s ≡ front ++ drop (length front) s
unfolding starts_with
starts_with-split s [] h = refl
starts_with-split [] (d ∷ front) h = cc
starts_with-split (c ∷ s) (d ∷ front) h = ground (arith, nat_eq_iff c d, starts_with-split s front)
