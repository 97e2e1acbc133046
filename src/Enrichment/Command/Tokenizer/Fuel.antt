-- ===== src/Enrichment/Command/Tokenizer/Fuel.antt =====
-- The fuel of the tokenizer of crates/enrichment-engine/src/extractors/command_extractor.rs, and the number
-- of its tokens.
use bastion.Base.{ℕ, ◌≤◌, List, length, Text}
use bastion.Enrichment.Command.Tokenizer.{Tokenized, ok, err, stuck}

-- A reader that is not stuck leaves at most so many characters.
abbrev Leaves : ℕ → Tokenized (Text × Text) → Type 0
Leaves n (ok (t, rest)) = length rest ≤ n
Leaves n (err d) = Unit {0}
Leaves n stuck = ⊥

-- The tokenizer ends, with so many tokens at most.
abbrev Ends : ℕ → Tokenized (List Text) → Type 0
Ends n (ok tokens) = length tokens ≤ n
Ends n (err d) = Unit {0}
Ends n stuck = ⊥
