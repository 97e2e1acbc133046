-- ===== src/Base/Chars/Trim.antt =====
-- Trimmed text.
use mathlib.Core.Path.{◌≡◌, refl}
use mathlib.Core.Bool.{Bool, false, ◌&&◌}
use mathlib.Core.List.{[], ◌∷◌, ◌++◌}
use native.Mathlib.Omega.{arith}
use Prim.Native.Nat.{ℕ}
use bastion.Base.Tests.{if◌then◌else◌}
use bastion.Base.Classes.{Text}
use bastion.Base.Chars.{is_empty, is_whitespace, trim, trim_start, trim_end}

-- Whether the last character is white space.
abbrev pub ends_in_space : Text → Bool
ends_in_space [] = false
ends_in_space (c ∷ []) = is_whitespace c
ends_in_space (c ∷ d ∷ s) = ends_in_space (d ∷ s)

pub ends_in_space-append :
    (front back : Text) → is_empty back ≡ false → ends_in_space (front ++ back) ≡ ends_in_space back
ends_in_space-append [] back h = refl
ends_in_space-append (c ∷ []) [] h = cc
ends_in_space-append (c ∷ []) (d ∷ back) h = refl
ends_in_space-append (c ∷ d ∷ front) back h = ends_in_space-append (d ∷ front) back h

keep_last : ℕ → Text → Text
keep_last c rest = if is_empty rest then (if is_whitespace c then [] else c ∷ []) else c ∷ rest

trim_end-cons : (c : ℕ) (s : Text) → trim_end (c ∷ s) ≡ keep_last c (trim_end s)
unfolding trim_end keep_last
trim_end-cons c s =
    elim (trim_end s)
      as (λ rest. (if is_empty rest && is_whitespace c then [] else c ∷ rest) ≡ keep_last c rest) [
        | [] ↦ refl
        | d ∷ rest ↦ refl
      ]

ends_in_space-keep_last :
    (c : ℕ) (rest : Text) → ends_in_space rest ≡ false → ends_in_space (keep_last c rest) ≡ false
unfolding keep_last
ends_in_space-keep_last c [] h = ground arith
ends_in_space-keep_last c (d ∷ rest) h = h

ends_in_space-trim_end : (s : Text) → ends_in_space (trim_end s) ≡ false
unfolding trim_end
ends_in_space-trim_end [] = refl
ends_in_space-trim_end (c ∷ s) =
    rw (trim_end-cons c s) (ends_in_space-keep_last c (trim_end s) (ends_in_space-trim_end s))

pub ends_in_space-trim : (s : Text) → ends_in_space (trim s) ≡ false
unfolding trim
ends_in_space-trim s = ends_in_space-trim_end (trim_start s)

trim_end_kept : (s : Text) → ends_in_space s ≡ false → trim_end s ≡ s
unfolding trim_end
trim_end_kept [] h = refl
trim_end_kept (c ∷ []) h = rw h refl
trim_end_kept (c ∷ d ∷ s) h =
    rw (trim_end-cons c (d ∷ s), trim_end_kept (d ∷ s) h) (unfold keep_last in refl)

-- A text with no white space at either end is left as it is.
pub trim_kept :
    (c : ℕ) (s : Text)
    → is_whitespace c ≡ false
    → ends_in_space (c ∷ s) ≡ false
    → trim (c ∷ s) ≡ c ∷ s
unfolding trim trim_start
trim_kept c s h k = rw (trim, trim_start, h) (trim_end_kept (c ∷ s) k)
