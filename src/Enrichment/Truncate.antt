-- ===== src/Enrichment/Truncate.antt =====
-- The truncation of stored output, crates/enrichment-engine/src/truncate.rs. Text is a list of
-- characters; `char_indices` counts bytes.
pub mod Laws
use bastion.Base.{
  ℕ, ◌+◌, Bool, true, false, ◌&&◌, Option, none, some, List, [], ◌∷◌, ◌++◌, nat_eq, ltb, leb,
  if◌then◌else◌, length, take, Text,
}
use bastion.Base.Chars.{len_utf8, is_empty, trim}

-- U+2026.
abbrev pub ellipsis : ℕ
ellipsis = 8230

-- The loop of `truncate_string`, at the byte `i` with what it has pushed.
grow : ℕ → ℕ → Text → Text → Text
grow limit i truncated [] = truncated
grow limit i truncated (c ∷ s) =
    let more = grow limit (i + len_utf8 c) (truncated ++ c ∷ []) s in
    if nat_eq i 0 then more else if ltb (length truncated) limit then more else truncated

unfoldable pub truncate_string : Text → ℕ → Option Text
unfolding trim grow
truncate_string s limit =
    if nat_eq limit 0
    then none
    else if is_empty (trim s)
    then none
    else if leb (length s) limit
    then some s
    else some (grow limit 0 [] s ++ ellipsis ∷ [])

unfoldable pub truncate_string_at : Text → ℕ → Option Text
unfolding trim
truncate_string_at s limit =
    if nat_eq limit 0
    then none
    else if is_empty (trim s)
    then none
    else if leb (length s) limit
    then some s
    else some (take limit s ++ ellipsis ∷ [])
