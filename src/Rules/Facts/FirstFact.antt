-- ===== src/Rules/Facts/FirstFact.antt =====
-- The map of an `EvalContext` in crates/enrichment-engine/src/rules/ast.rs against a search
-- of the list of facts.
use bastion.Base.{
  ◌≡◌, ◌∙◌, Option, none, some, List, [], ◌∷◌, arith, Text, text_eq, ◌==◌, if◌then◌else◌,
}
use bastion.Base.Map.{lookup, lookup-insert}
use bastion.Rules.Facts.{OperationResult, Fact, or_insert, build_fact_map, new_context, get_fact}

-- The first fact with the key.
abbrev pub first_fact : Text → List Fact → Option Fact
first_fact key [] = none
first_fact key (fact ∷ facts) = if fact.key == key then some fact else first_fact key facts

abbrev or_else : Option Fact → Option Fact → Option Fact
or_else none o = o
or_else (some fact) o = some fact

lookup-or_insert :
    (key k : Text) (fact : Fact) (m : List (Text × Fact))
    → lookup key (or_insert k fact m)
      ≡ or_else (lookup key m) (if k == key then some fact else none)
lookup-or_insert key k fact m = ground (arith, lookup-insert k key fact m, text_eq.beq_iff k key)

lookup-build_fact_map :
    (key : Text) (facts : List Fact) (m : List (Text × Fact))
    → lookup key (build_fact_map facts m) ≡ or_else (lookup key m) (first_fact key facts)
unfolding build_fact_map
lookup-build_fact_map key [] m = ground arith
lookup-build_fact_map key (fact ∷ facts) m =
    lookup-build_fact_map key facts (or_insert fact.key fact m)
    ∙ rw (lookup-or_insert key fact.key fact m) (ground arith)

-- `get_fact` gives the first fact with the key, in the order of the list of facts.
pub get_fact-first :
    (result : OperationResult) (facts : List Fact) (key : Text)
    → get_fact (new_context result facts) key ≡ first_fact key facts
unfolding get_fact new_context
get_fact-first result facts key = unfold lookup in lookup-build_fact_map key facts []
