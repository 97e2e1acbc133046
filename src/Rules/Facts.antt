-- ===== src/Rules/Facts.antt =====
-- The values that a condition is evaluated on: `Fact` and `OperationResult` of
-- crates/enrichment-engine/src/models/mod.rs, and `EvalContext` of rules/ast.rs. The invocation is
-- never read. A confidence is an `f32` that is only copied: its bits.
pub mod FirstFact
use bastion.Base.{
  ℕ, Bool, true, false, Option, none, some, List, [], ◌∷◌, ◌++◌, Text, text_eq, ◌==◌, if◌then◌else◌,
}
use bastion.Base.Int.{ℤ}
use bastion.Base.Map.{lookup, insert}

pub record OperationResult : Type 0 where
  pub exit_code : ℤ
  pub stdout : Text
  pub stderr : Text
  pub duration_ms : ℕ
  pub timed_out : Bool

pub record Fact : Type 0 where
  pub key : Text
  pub value : Text
  pub tags : List Text
  pub source_extractor : Text
  pub confidence : ℕ

pub record EvalContext : Type 0 where
  pub result : OperationResult
  pub facts : List Fact
  pub fact_map : List (Text × Fact)

-- `entry(key).or_insert(fact)`.
abbrev or_insert : Text → Fact → List (Text × Fact) → List (Text × Fact)
or_insert key fact m = elim (lookup key m) [ none ↦ insert key fact m | some old ↦ m ]

build_fact_map : List Fact → List (Text × Fact) → List (Text × Fact)
build_fact_map [] m = m
build_fact_map (fact ∷ facts) m = build_fact_map facts (or_insert fact.key fact m)

unfoldable pub new_context : OperationResult → List Fact → EvalContext
unfolding build_fact_map
new_context result facts = record {
  result = result;
  facts = facts;
  fact_map = build_fact_map facts [];
}

unfoldable pub get_fact : EvalContext → Text → Option Fact
get_fact ctx key = lookup key ctx.fact_map
