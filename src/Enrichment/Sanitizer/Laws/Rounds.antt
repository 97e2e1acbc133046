-- ===== src/Enrichment/Sanitizer/Laws/Rounds.antt =====
-- The loop of crates/enrichment-engine/src/sanitizer.rs where some of its rounds are known.
use mathlib.Core.Option
use mathlib.Core.List.{append_assoc}
use bastion.Base.{
  ℕ, zero, suc, ◌≡◌, sym, refl, ap, ◌∙◌, [], ◌∷◌, ◌++◌, drop, Text, Option, none, some,
}
use bastion.Enrichment.Sanitizer.{round, sanitize_command}
use bastion.Enrichment.Sanitizer.Laws.Progress.{sanitize-round}

-- The loop after a number of rounds: what it has written, and what it has left to read.
abbrev pub after : ℕ → Text → Text × Text
after zero s = ([], s)
after (suc n) [] = ([], [])
after (suc n) (b ∷ s) =
    let (written, moved) = round (b ∷ s) in
    let (later, rest) = after n (drop moved (b ∷ s)) in (written ++ later, rest)

map-none_written : (o : Option Text) → o ≡ Option.map (λ t. [] ++ t) o
map-none_written none = refl
map-none_written (some t) = refl

pub map-append :
    (a b : Text) (o : Option Text)
    → Option.map (λ t. a ++ t) (Option.map (λ t. b ++ t) o) ≡ Option.map (λ t. (a ++ b) ++ t) o
map-append a b none = refl
map-append a b (some t) = ap some (sym (append_assoc a b t))

-- What the sanitizer gives is what the rounds have written and what it makes of the rest.
pub sanitize-after :
    (n : ℕ) (s : Text)
    → sanitize_command s ≡ Option.map (λ t. (after n s).0 ++ t) (sanitize_command (after n s).1)
sanitize-after zero s = map-none_written (sanitize_command s)
sanitize-after (suc n) [] = map-none_written (sanitize_command [])
sanitize-after (suc n) (b ∷ s) =
    let left = drop (round (b ∷ s)).1 (b ∷ s) in
    sanitize-round b s (round (b ∷ s)) refl
    ∙ ap (Option.map (λ t. (round (b ∷ s)).0 ++ t)) (sanitize-after n left)
    ∙ map-append (round (b ∷ s)).0 (after n left).0 (sanitize_command (after n left).1)

-- The same where the rounds are known, and the sanitizer on what they leave.
pub sanitize_where :
    (n : ℕ) (input written left kept rest : Text)
    → after n input ≡ (written, left)
    → sanitize_command left ≡ Option.map (λ t. kept ++ t) (sanitize_command rest)
    → sanitize_command input ≡ Option.map (λ t. (written ++ kept) ++ t) (sanitize_command rest)
sanitize_where n input written left kept rest stands e =
    sanitize-after n input
    ∙ ap (λ (state : Text × Text). Option.map (λ t. state.0 ++ t) (sanitize_command state.1)) stands
    ∙ ap (Option.map (λ t. written ++ t)) e
    ∙ map-append written kept (sanitize_command rest)
