-- ===== src/Pool/Ports.antt =====
-- The ports that the pool manager calls: `SandboxProvider` and `SandboxRepository` of
-- crates/bastion-domain, whose implementations are behind a trait object, and
-- `SandboxId::generate`. A call may change the world that it runs in.
use Prim.Native.String.{String}
use bastion.Base.{ℕ, Option, List}
use bastion.Sandbox.Errors.{Result, ok, err}
use bastion.Sandbox.Entity.{Sandbox, ResourcesSpec, NetworkSpec}

pub record Ports (Time World : Type 0) : Type 0 where
  pub generate : World → String × World
  pub create :
      String
      → String
      → ResourcesSpec
      → NetworkSpec
      → List (String × String)
      → ℕ
      → World
      → Result (Sandbox Time) × World
  pub terminate : String → World → Result (Unit {0}) × World
  pub list_running : World → Result (List (Sandbox Time)) × World
  pub save : Sandbox Time → World → Result (Unit {0}) × World
  pub update : Sandbox Time → World → Result (Unit {0}) × World
  pub delete : String → World → Result (Unit {0}) × World
  pub find_by_id : String → World → Result (Option (Sandbox Time)) × World
  pub find_active : World → Result (List (Sandbox Time)) × World

-- The operator `?` on a call: an error returns at once.
infixl 5 ◌and_then◌
abbrev pub ◌and_then◌ {ℓ κ} :
    {World : Type 0} {A : Type ℓ} {B : Type κ}
    → Result A × World
    → (A → World → Result B × World)
    → Result B × World
(ok a, w) and_then f = f a w
(err e, w) and_then f = (err e, w)
