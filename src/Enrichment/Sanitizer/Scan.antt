-- ===== src/Enrichment/Sanitizer/Scan.antt =====
-- The scans that the checks of crates/enrichment-engine/src/sanitizer.rs share. A command is the list
-- of the bytes that are left, `bytes[i..]`; a position is relative to its start.
use bastion.Base.{ℕ, suc, Bool, ◌||◌, [], ◌∷◌, any, ltb, nat_eq, if◌then◌else◌, Text, length}

-- `while end < bytes.len() && test(bytes[end]) { end += 1 }`: how far `end` moves.
unfoldable pub run : (ℕ → Bool) → Text → ℕ
run test [] = 0
run test (b ∷ s) = let more = suc (run test s) in if test b then more else 0

abbrev pub is_quote : ℕ → Bool
is_quote b = nat_eq b b'\'' || nat_eq b b'"'

-- The bytes that end a value, those that end an AWS key, and white space.
abbrev pub ends_key : ℕ → Bool
ends_key b = any (nat_eq b) (b' ' ∷ b'\t' ∷ b'\n' ∷ b'\r' ∷ b'\'' ∷ b'"' ∷ b',' ∷ [])

abbrev pub ends_value : ℕ → Bool
ends_value b = ends_key b || nat_eq b b'&'

-- The value of an upper-case variable goes on past a carriage return.
abbrev pub ends_variable : ℕ → Bool
ends_variable b = any (nat_eq b) (b' ' ∷ b'\t' ∷ b'\'' ∷ b'"' ∷ b',' ∷ b'&' ∷ b'\n' ∷ [])

abbrev pub is_blank : ℕ → Bool
is_blank b = any (nat_eq b) (b' ' ∷ b'\t' ∷ b'\n' ∷ b'\r' ∷ [])

-- `u8::is_ascii_whitespace`.
abbrev pub is_ascii_whitespace : ℕ → Bool
is_ascii_whitespace b = is_blank b || nat_eq b 12

-- What is skipped of a text that starts with a quote: up to the next such quote and past it, or to
-- the end.
abbrev pub past_quote : ℕ → Text → ℕ
past_quote inside s = if ltb inside (length s) then suc (suc inside) else suc inside
