-- ===== src/Enrichment/Tests.antt =====
-- Runs of the truncation, and its theorem at a concrete input.
use bastion.Base.{◌≤◌, ◌<◌, ◌+◌, ◌⊎◌, length, take, [], ◌∷◌, ◌++◌, ◌≡◌, refl, none, some, codes}
use bastion.Base.Chars.{is_whitespace}
use bastion.Enrichment.Truncate.{ellipsis, truncate_string}
use bastion.Enrichment.Truncate.Laws.{truncate_string-keeps}

truncate_test :
    (truncate_string (codes "hello") 3 ≡ some (codes "hel…"))
    × (truncate_string (codes " x ") 3 ≡ some (codes " x "))
    × (truncate_string (codes "  ") 3 ≡ none)
unfolding truncate_string is_whitespace
truncate_test = (refl, refl, refl)

cut_hello : truncate_string (codes "hello") 3 ≡ some (codes "hel…")
unfolding truncate_string is_whitespace
cut_hello = refl

truncate_string-keeps_example :
    ((codes "hel…" ≡ codes "hello") × (length (codes "hel…") ≤ 3))
    ⊎ ((codes "hel…" ≡ take 3 (codes "hello") ++ ellipsis ∷ [])
        × (3 < length (codes "hello"))
        × (length (codes "hel…") ≡ 3 + 1))
truncate_string-keeps_example = truncate_string-keeps (codes "hello") (codes "hel…") 3 cut_hello
