-- ===== src/Base/Int.antt =====
-- Signed integers over the native numbers: an `i32` or `i64` is a ℤ within its range.
use Prim.Native.Nat.{ℕ, suc, ◌+◌, ◌-◌, ◌^◌, ◌%◌, ◌≤◌}
use mathlib.Core.Path.{◌≡◌}
use mathlib.Core.Logic.{◌↔◌}
use mathlib.Core.Bool.{Bool, true, false}
use native.Mathlib.Omega.{arith}
use bastion.Base.Tests.{ltb, leb, nat_eq, if◌then◌else◌}
use bastion.Base.Classes.{Eq}

-- `negsuc n` is -(n + 1).
pub data ℤ : Type 0 where
  pos : ℕ → ℤ
  negsuc : ℕ → ℤ

abbrev pub pos_part : ℤ → ℕ
pos_part (pos n) = n
pos_part (negsuc n) = 0

abbrev pub neg_part : ℤ → ℕ
neg_part (pos n) = 0
neg_part (negsuc n) = suc n

abbrev pub ltb_ℤ : ℤ → ℤ → Bool
ltb_ℤ a b = ltb (pos_part a + neg_part b) (pos_part b + neg_part a)

abbrev pub leb_ℤ : ℤ → ℤ → Bool
leb_ℤ a b = leb (pos_part a + neg_part b) (pos_part b + neg_part a)

abbrev pub eqb_ℤ : ℤ → ℤ → Bool
eqb_ℤ (pos a) (pos b) = nat_eq a b
eqb_ℤ (negsuc a) (negsuc b) = nat_eq a b
eqb_ℤ _ _ = false

infix 50 ◌≤ℤ◌
abbrev pub ◌≤ℤ◌ : ℤ → ℤ → Type 0
a ≤ℤ b = pos_part a + neg_part b ≤ pos_part b + neg_part a

pub eqb_ℤ_iff : (a b : ℤ) → (eqb_ℤ a b ≡ true) ↔ (a ≡ b)
eqb_ℤ_iff a b = ground arith

instance abbrev pub ℤ_eq : Eq ℤ
ℤ_eq = record { beq = eqb_ℤ; beq_iff = eqb_ℤ_iff }

-- The cast of an unsigned number to `i32` or `i64`: the low bits, read in two's complement.
abbrev pub as_signed : ℕ → ℕ → ℤ
as_signed half n =
    let low = n % (half + half) in if ltb low half then pos low else negsuc (half + half - low - 1)

unfoldable pub as_i32 : ℕ → ℤ
as_i32 n = as_signed (2 ^ 31) n

pub as_i32_pos : (n : ℕ) → suc n ≤ 2 ^ 31 → as_i32 n ≡ pos n
unfolding as_i32
as_i32_pos n h = ground arith

pub as_i32_wraps : (n : ℕ) → 2 ^ 31 ≤ n → suc n ≤ 2 ^ 32 → as_i32 n ≡ negsuc (2 ^ 32 - n - 1)
unfolding as_i32
as_i32_wraps n h k = ground arith
