-- ===== src/Base/Chars.antt =====
-- What the program uses of `char`, `str` and the integer types.
pub mod Trim
pub mod Split
use Prim.Native.Nat.{ℕ, zero, suc, ◌+◌, ◌-◌, ◌*◌, ◌/◌, ◌%◌, ◌^◌}
use mathlib.Core.Bool.{Bool, true, false, ◌&&◌, ◌||◌}
use mathlib.Core.Option.{Option, none, some}
use mathlib.Core.List.{List, [], ◌∷◌}
use bastion.Base.Tests.{ltb, leb, nat_eq, if◌then◌else◌}
use bastion.Base.Lists.{any}
use bastion.Base.Classes.{Text}
use bastion.Base.Int.{ℤ, pos, negsuc}

-- `char::len_utf8`.
abbrev pub len_utf8 : ℕ → ℕ
len_utf8 c = if ltb c 0x80 then 1 else if ltb c 0x800 then 2 else if ltb c 0x10000 then 3 else 4

abbrev pub is_in : ℕ → ℕ → ℕ → Bool
is_in lo hi c = leb lo c && leb c hi

-- `char::is_whitespace`: the characters with the property White_Space.
unfoldable pub is_whitespace : ℕ → Bool
is_whitespace c =
    is_in 9 13 c
    || any (nat_eq c)
        (0x20 ∷ 0x85 ∷ 0xa0 ∷ 0x1680 ∷ 0x2028 ∷ 0x2029 ∷ 0x202f ∷ 0x205f ∷ 0x3000 ∷ [])
    || is_in 0x2000 0x200a c

unfoldable pub is_ascii_digit : ℕ → Bool
is_ascii_digit c = is_in b'0' b'9' c

unfoldable pub is_ascii_letter : ℕ → Bool
is_ascii_letter c = is_in b'a' b'z' c || is_in b'A' b'Z' c

abbrev pub is_empty : Text → Bool
is_empty [] = true
is_empty (c ∷ s) = false

trim_start : Text → Text
trim_start [] = []
trim_start (c ∷ s) = let rest = trim_start s in if is_whitespace c then rest else c ∷ s

trim_end : Text → Text
trim_end [] = []
trim_end (c ∷ s) =
    let rest = trim_end s in if is_empty rest && is_whitespace c then [] else c ∷ rest

-- `str::trim`.
unfoldable pub trim : Text → Text
unfolding trim_start trim_end
trim s = trim_end (trim_start s)

-- `str::split` at a character.
attach : ℕ → List Text → List Text
attach c [] = (c ∷ []) ∷ []
attach c (part ∷ parts) = (c ∷ part) ∷ parts

unfoldable pub split : ℕ → Text → List Text
unfolding attach
split delimiter [] = [] ∷ []
split delimiter (c ∷ s) =
    let parts = split delimiter s in if nat_eq c delimiter then [] ∷ parts else attach c parts

-- `str::starts_with` and `str::contains`.
unfoldable pub starts_with : Text → Text → Bool
starts_with s [] = true
starts_with [] (d ∷ sub) = false
starts_with (c ∷ s) (d ∷ sub) = nat_eq c d && starts_with s sub

unfoldable pub contains : Text → Text → Bool
unfolding starts_with
contains [] sub = starts_with [] sub
contains (c ∷ s) sub = starts_with (c ∷ s) sub || contains s sub

-- The value of a run of digits; `none` at any other character.
abbrev digits_value : ℕ → Text → Option ℕ
digits_value acc [] = some acc
digits_value acc (c ∷ s) =
    let rest = digits_value (acc * 10 + (c - b'0')) s in if is_in b'0' b'9' c then rest else none

abbrev nonempty_digits : Text → Option ℕ
nonempty_digits [] = none
nonempty_digits (c ∷ s) = digits_value 0 (c ∷ s)

abbrev positive_below : ℕ → Option ℕ → Option ℤ
positive_below half none = none
positive_below half (some v) = if ltb v half then some (pos v) else none

abbrev negative_below : ℕ → Option ℕ → Option ℤ
negative_below half none = none
negative_below half (some zero) = some (pos 0)
negative_below half (some (suc v)) = if ltb v half then some (negsuc v) else none

-- `str::parse` into the signed type whose values lie below `half` and from `-half`.
unfoldable pub parse_signed : ℕ → Text → Option ℤ
parse_signed half [] = none
parse_signed half (c ∷ s) =
    if nat_eq c b'+'
    then positive_below half (nonempty_digits s)
    else if nat_eq c b'-'
    then negative_below half (nonempty_digits s)
    else positive_below half (digits_value 0 (c ∷ s))

unfoldable pub parse_i32 : Text → Option ℤ
unfolding parse_signed
parse_i32 s = parse_signed (2 ^ 31) s

unfoldable pub parse_i64 : Text → Option ℤ
unfolding parse_signed
parse_i64 s = parse_signed (2 ^ 63) s

-- The decimal digits of a number; a number has at most as many as its successor.
digits_from : ℕ → ℕ → Text → Text
digits_from zero n acc = acc
digits_from (suc f) n acc =
    let rest = digits_from f (n / 10) ((b'0' + n % 10) ∷ acc) in
    if ltb n 10 then (b'0' + n) ∷ acc else rest

-- `to_string` of an unsigned and of a signed number.
unfoldable pub show_ℕ : ℕ → Text
unfolding digits_from
show_ℕ n = digits_from (suc n) n []

unfoldable pub show_ℤ : ℤ → Text
unfolding show_ℕ
show_ℤ (pos n) = show_ℕ n
show_ℤ (negsuc n) = b'-' ∷ show_ℕ (suc n)
