-- ===== src/Pool/Invariant/Sums.antt =====
-- The number of queued sandboxes when one queue is replaced, for the calls of
-- crates/bastion-infrastructure/src/pool/manager.rs.
use Prim.Native.String.{String}
use bastion.Base.{
  ℕ, ◌+◌, ◌%◌, ◌^◌, ◌≡◌, inl, inr, some, [], ◌∷◌, arith, Bool-cases, string_eq, ◌==◌,
}
use bastion.Base.Map.{lookup, insert}
use bastion.Pool.Queue.{PoolQueue, idle_count}
use bastion.Pool.Queue.Laws.{Bounded}
use bastion.Pool.Manager.{Pools, idle_sum, fetch_add, fetch_sub}
use bastion.Pool.Invariant.{AllBounded}

module _ {Time : Type 0} where
  pub idle_sum-insert :
      (t : String) (q q' : PoolQueue Time) (pools : Pools Time)
      → lookup t pools ≡ some q
      → idle_sum (insert t q' pools) + idle_count q ≡ idle_sum pools + idle_count q'
  unfolding lookup insert
  idle_sum-insert t q q' [] h = cc
  idle_sum-insert t q q' ((u, p) ∷ pools) h = ground (arith, idle_sum-insert t q q' pools)

  pub AllBounded-insert :
      (t : String) (q : PoolQueue Time) (pools : Pools Time)
      → Bounded q
      → AllBounded pools
      → AllBounded (insert t q pools)
  unfolding insert
  AllBounded-insert t q [] b h = (b, tt)
  AllBounded-insert t q ((u, p) ∷ pools) b (k, ks) = elim (Bool-cases (u == t)) [
    | inl same ↦ rw (insert, same) (b, ks)
    | inr other ↦ rw (insert, other) (k, AllBounded-insert t q pools b ks)
  ]

  pub AllBounded-lookup :
      (t : String) (q : PoolQueue Time) (pools : Pools Time)
      → lookup t pools ≡ some q
      → AllBounded pools
      → Bounded q
  unfolding lookup
  AllBounded-lookup t q [] e h = cc
  AllBounded-lookup t q ((u, p) ∷ pools) e (k, ks) = ground (arith, AllBounded-lookup t q pools)

pub count_one_more : (a s s' : ℕ) → a ≡ s % 2 ^ 64 → s' ≡ 1 + s → fetch_add a 1 ≡ s' % 2 ^ 64
count_one_more a s s' h k = omega arith

pub count_less : (a n s s' : ℕ) → a ≡ s % 2 ^ 64 → n + s' ≡ s → fetch_sub a n ≡ s' % 2 ^ 64
count_less a n s s' h k = omega arith
