-- ===== src/Enrichment/Truncate/Laws.antt =====
-- The two truncations of crates/enrichment-engine/src/truncate.rs against each other.
use mathlib.Core.List.{append_assoc, append-nil}
use bastion.Base.{
  ℕ, zero, suc, ◌+◌, ◌<◌, ◌≡◌, refl, sym, ◌∙◌, inl, inr, true, false, [], ◌∷◌, ◌++◌, nat_eq, ltb,
  arith, length, length-append, take, Bool-cases, Text, Option, none, some, leb, ◌≤◌, ◌⊎◌,
  either-branch,
}
use bastion.Base.Chars.{len_utf8, is_empty, trim}
use bastion.Enrichment.Truncate.{ellipsis, grow, truncate_string, truncate_string_at}

-- Past the first character the loop pushes until it has `limit` of them.
grow-take :
    (n limit i : ℕ) (truncated s : Text)
    → 0 < i
    → length truncated + n ≡ limit
    → grow limit i truncated s ≡ truncated ++ take n s
unfolding grow
grow-take zero limit i truncated [] h k = sym (append-nil truncated)
grow-take (suc n) limit i truncated [] h k = sym (append-nil truncated)
grow-take zero limit i truncated (c ∷ s) h k =
    let later : nat_eq i 0 ≡ false = ground arith in
    let full : ltb (length truncated) limit ≡ false = ground arith in
    rw (grow, later, full) (sym (append-nil truncated))
grow-take (suc n) limit i truncated (c ∷ s) h k =
    let later : nat_eq i 0 ≡ false = ground arith in
    let room : ltb (length truncated) limit ≡ true = ground arith in
    let rest =
      grow-take n limit (i + len_utf8 c) (truncated ++ c ∷ []) s (omega (arith, h))
        (omega (arith, k, length-append truncated (c ∷ []))) in
    rw (grow, later, room) (rest ∙ append_assoc truncated (c ∷ []) (take n s))

some_bytes : (c : ℕ) → 0 < 0 + len_utf8 c
some_bytes c = ground arith

grow-start : (limit : ℕ) (s : Text) → 0 < limit → grow limit 0 [] s ≡ take limit s
unfolding grow
grow-start zero s h = absurd (omega arith)
grow-start (suc n) [] h = refl
grow-start (suc n) (c ∷ s) h =
    grow-take n (suc n) (0 + len_utf8 c) (c ∷ []) s (some_bytes c) (omega arith)

-- Both truncations give the same result on every text and limit.
pub truncate_string-at :
    (s : Text) (limit : ℕ) → truncate_string s limit ≡ truncate_string_at s limit
unfolding truncate_string truncate_string_at
truncate_string-at s limit = elim (Bool-cases (nat_eq limit 0)) [
  | inl none_wanted ↦ rw (truncate_string, truncate_string_at, none_wanted) refl
  | inr wanted ↦
      let positive : 0 < limit = ground arith in
      rw (truncate_string, truncate_string_at, grow-start limit s positive) refl
]

length-take : (n : ℕ) (s : Text) → n < length s → length (take n s) ≡ n
length-take zero s h = refl
length-take (suc n) [] h = absurd (omega arith)
length-take (suc n) (c ∷ s) h = omega (arith, length-take n s (omega arith))

-- What a truncation may give for a text: nothing, the text, or `limit` characters of it.
abbrev Cuts : Text → ℕ → Option Text → Type 0
Cuts s limit none = Unit {0}
Cuts s limit (some t) =
    ((t ≡ s) × (length t ≤ limit))
    ⊎ ((t ≡ take limit s ++ ellipsis ∷ []) × (limit < length s) × (length t ≡ limit + 1))

truncate_string_at-Cuts : (s : Text) (limit : ℕ) → Cuts s limit (truncate_string_at s limit)
unfolding truncate_string_at
truncate_string_at-Cuts s limit = either-branch (Cuts s limit) (nat_eq limit 0) _ _ tt (
    either-branch (Cuts s limit) (is_empty (trim s)) _ _ tt
      (elim (Bool-cases (leb (length s) limit)) [
        | inl short ↦ rw short (inl (refl, ground arith))
        | inr long ↦
            let less : limit < length s = ground arith in
            rw long (
              inr (
                refl,
                less,
                omega
                    (arith, length-append (take limit s) (ellipsis ∷ []), length-take limit s less),
              ))
      ]))

-- What `truncate_string` gives is the text itself, which is then within the limit, or exactly the
-- first `limit` characters of a longer text and an ellipsis.
pub truncate_string-keeps :
    (s t : Text) (limit : ℕ)
    → truncate_string s limit ≡ some t
    → ((t ≡ s) × (length t ≤ limit))
      ⊎ ((t ≡ take limit s ++ ellipsis ∷ []) × (limit < length s) × (length t ≡ limit + 1))
truncate_string-keeps s t limit e =
    let cuts = truncate_string_at-Cuts s limit in
    let same : truncate_string_at s limit ≡ some t = sym (truncate_string-at s limit) ∙ e in
    rw same at cuts
