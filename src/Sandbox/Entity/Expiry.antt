-- ===== src/Sandbox/Entity/Expiry.antt =====
-- The expiry of a sandbox, `set_timeout` then `is_expired` of
-- crates/bastion-domain/src/sandbox/entity.rs.
use bastion.Base.{ℕ, ◌^◌, ◌-◌, ◌<◌, ◌≤◌, ◌≡◌, Bool, arith}
use bastion.Base.Int.{ℤ, pos, negsuc}
use bastion.Sandbox.Entity.{Sandbox, is_expired, set_timeout}

module _ {Time : Type 0} (add_ms : Time → ℤ → Time) (later : Time → Time → Bool) where
  -- A timeout below 2^63 milliseconds expires the sandbox exactly after its creation time plus the
  -- timeout.
  pub is_expired-set_timeout :
      (b : Sandbox Time) (now : Time) (timeout_ms : ℕ)
      → timeout_ms < 2 ^ 63
      → is_expired later now (set_timeout add_ms timeout_ms b)
        ≡ later now (add_ms b.created_at (pos timeout_ms))
  unfolding is_expired set_timeout
  is_expired-set_timeout b now timeout_ms h = ground arith

  -- From 2^63 on the cast wraps: the expiry is set before the creation time, by the negative number
  -- that the 64 bits read.
  pub set_timeout_wraps :
      (b : Sandbox Time) (now : Time) (timeout_ms : ℕ)
      → 2 ^ 63 ≤ timeout_ms
      → timeout_ms < 2 ^ 64
      → is_expired later now (set_timeout add_ms timeout_ms b)
        ≡ later now (add_ms b.created_at (negsuc (2 ^ 64 - timeout_ms - 1)))
  unfolding is_expired set_timeout
  set_timeout_wraps b now timeout_ms h k = ground arith
