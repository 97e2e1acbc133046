-- ===== src/Pool/Invariant.antt =====
-- What holds between the calls of the pool manager, crates/bastion-infrastructure/src/pool/manager.rs.
pub mod Sums
pub mod Clients
pub mod Background
use Prim.Native.String.{String}
use bastion.Base.{ℕ, ◌≡◌, ◌≤◌, ◌^◌, ◌%◌, List, All, length}
use bastion.Pool.Queue.Laws.{Bounded}
use bastion.Pool.Manager.{Pools, PoolState, idle_sum}

-- Every queue is within its bound.
abbrev pub AllBounded : {Time : Type 0} → Pools Time → Type 0
AllBounded pools = All (λ p. Bounded p.1) pools

-- The counter of idle sandboxes is the number of queued ones, modulo its width.
abbrev pub Counts : {Time : Type 0} → ℕ → Pools Time → Type 0
Counts idle pools = idle ≡ idle_sum pools % 2 ^ 64

pub record Valid {Time World : Type 0} (st : PoolState Time World) : Type 0 where
  pub bounded : AllBounded st.pools
  pub counted : Counts st.total_idle st.pools
