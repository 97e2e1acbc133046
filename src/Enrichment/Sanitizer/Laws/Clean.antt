-- ===== src/Enrichment/Sanitizer/Laws/Clean.antt =====
-- Commands without secrets, which the sanitizer of crates/enrichment-engine/src/sanitizer.rs leaves.
use mathlib.Core.Option
use bastion.Base.{
  ℕ, ◌+◌, ◌/◌, ◌%◌, ◌≡◌, false, List, [], ◌∷◌, ◌++◌, ltb, if◌then◌else◌, Text, codes, All,
}
use bastion.Base.Chars.{contains}

-- The texts that begin the secrets that the sanitizer knows.
abbrev pub markers : List Text
markers =
    codes "="
    ∷ codes "Bearer "
    ∷ codes "AKIA"
    ∷ codes "ghp_"
    ∷ codes "gho_"
    ∷ codes "ght_"
    ∷ codes "ghs_"
    ∷ codes "sk-"
    ∷ codes "--secret "
    ∷ codes "--api-key "
    ∷ codes "eyJ"
    ∷ []

-- None of the texts stands in the command.
abbrev pub HasNone : List Text → Text → Type 0
HasNone ms s = All (λ m. contains s m ≡ false) ms

-- The encoding of a character in UTF-8.
abbrev pub utf8 : ℕ → Text
utf8 c =
    if ltb c 0x80
    then c ∷ []
    else if ltb c 0x800
    then (0xc0 + c / 64) ∷ (0x80 + c % 64) ∷ []
    else if ltb c 0x10000
    then (0xe0 + c / 4096) ∷ (0x80 + c / 64 % 64) ∷ (0x80 + c % 64) ∷ []
    else (0xf0 + c / 262144) ∷ (0x80 + c / 4096 % 64) ∷ (0x80 + c / 64 % 64) ∷ (0x80 + c % 64) ∷ []

abbrev pub encode : List ℕ → Text
encode [] = []
encode (c ∷ chars) = utf8 c ++ encode chars
