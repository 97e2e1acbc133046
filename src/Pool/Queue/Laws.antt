-- ===== src/Pool/Queue/Laws.antt =====
-- The single operations of the queue of warm sandboxes in
-- crates/bastion-infrastructure/src/pool/manager.rs.
use mathlib.Core.List.{map, map-append}
use bastion.Base.{
  ℕ, ◌+◌, ◌≡◌, ◌≤◌, ◌<◌, refl, inl, inr, Bool, true, false, not, Option, none, some, List, [], ◌∷◌,
  ◌++◌, leb, arith, length, length-append, Bool-cases, filter, All,
}
use bastion.Sandbox.Entity.{Sandbox}
use bastion.Pool.Queue.{
  PoolEntry, PoolQueue, new_entry, is_idle_timeout, pop, push, evict_idle, retain,
}

module _ {Time : Type 0} where
  -- A queue holds no more than its bound.
  abbrev pub Bounded : PoolQueue Time → Type 0
  Bounded q = length q.entries ≤ q.max_idle

  -- The abstract queue.
  abbrev pub contents : PoolQueue Time → List (Sandbox Time)
  contents q = map (λ entry. entry.sandbox) q.entries

  abbrev queue : List (PoolEntry Time) → ℕ → ℕ → ℕ → PoolQueue Time
  queue es min max timeout = record {
    entries = es;
    min_idle = min;
    max_idle = max;
    idle_timeout_ms = timeout;
  }

  -- What one entry less means.
  pub record Popped (q : PoolQueue Time) (s : Sandbox Time) (q' : PoolQueue Time) : Type 0 where
    pub shorter : length q.entries ≡ 1 + length q'.entries
    pub same_bound : q'.max_idle ≡ q.max_idle
    pub oldest : contents q ≡ s ∷ contents q'

  abbrev pub Pops : PoolQueue Time → Option (Sandbox Time) × PoolQueue Time → Type 0
  Pops q (none, q') = (q.entries ≡ []) × (q' ≡ q)
  Pops q (some s, q') = Popped q s q'

  pop_queue :
      (es : List (PoolEntry Time)) (a b c : ℕ) → Pops (queue es a b c) (pop (queue es a b c))
  unfolding pop
  pop_queue [] a b c = (refl, refl)
  pop_queue (e ∷ es) a b c = record { shorter = omega arith; same_bound = refl; oldest = refl }

  pub pop-Pops : (q : PoolQueue Time) → Pops q (pop q)
  pop-Pops q = pop_queue q.entries q.min_idle q.max_idle q.idle_timeout_ms

  pub record Pushed (q : PoolQueue Time) (s : Sandbox Time) (q' : PoolQueue Time) : Type 0 where
    pub longer : length q'.entries ≡ 1 + length q.entries
    pub same_bound : q'.max_idle ≡ q.max_idle
    pub same_min : q'.min_idle ≡ q.min_idle
    pub room : length q.entries < q.max_idle
    pub newest : contents q' ≡ contents q ++ s ∷ []

  abbrev pub Pushes : PoolQueue Time → Sandbox Time → Bool × PoolQueue Time → Type 0
  Pushes q s (true, q') = Pushed q s q'
  Pushes q s (false, q') = (q.max_idle ≤ length q.entries) × (q' ≡ q)

  pub push-Pushes : (s : Sandbox Time) (now : ℕ) (q : PoolQueue Time) → Pushes q s (push s now q)
  unfolding push
  push-Pushes s now q = elim (Bool-cases (leb q.max_idle (length q.entries))) [
    | inl full ↦ rw (push, full) (ground arith, refl)
    | inr room ↦
        rw (push, room)
          (record {
            longer = omega (arith, length-append q.entries (new_entry s now ∷ []));
            same_bound = refl;
            same_min = refl;
            room = ground arith;
            newest = map-append (λ entry. entry.sandbox) q.entries (new_entry s now ∷ []);
          })
  ]

  retain-filter :
      (p : PoolEntry Time → Bool) (es : List (PoolEntry Time))
      → (retain p es).0 ≡ map (λ e. e.sandbox) (filter p es)
  unfolding retain
  retain-filter p [] = refl
  retain-filter p (e ∷ es) = ground (arith, retain-filter p es)

  retain-kept :
      (p : PoolEntry Time → Bool) (es : List (PoolEntry Time))
      → (retain p es).1 ≡ filter (λ e. not (p e)) es
  unfolding retain
  retain-kept p [] = refl
  retain-kept p (e ∷ es) = ground (arith, retain-kept p es)

  -- Eviction gives the sandboxes of the entries that timed out and keeps the others, both in order.
  pub evict_idle_lem :
      (now : ℕ) (q : PoolQueue Time)
      → ((evict_idle now q).0
          ≡ map (λ e. e.sandbox) (filter (is_idle_timeout now q.idle_timeout_ms) q.entries))
        × ((evict_idle now q).1.entries
            ≡ filter (λ e. not (is_idle_timeout now q.idle_timeout_ms e)) q.entries)
  unfolding evict_idle
  evict_idle_lem now q =
      let timed_out = is_idle_timeout now q.idle_timeout_ms in
      (retain-filter timed_out q.entries, retain-kept timed_out q.entries)

  retain-length :
      (p : PoolEntry Time → Bool) (es : List (PoolEntry Time))
      → length (retain p es).0 + length (retain p es).1 ≡ length es
  unfolding retain
  retain-length p [] = omega arith
  retain-length p (e ∷ es) = ground (arith, retain-length p es)

  pub record Evicts (q : PoolQueue Time) (n : ℕ) (q' : PoolQueue Time) : Type 0 where
    pub parted : n + length q'.entries ≡ length q.entries
    pub same_bound : q'.max_idle ≡ q.max_idle

  pub evict_idle-Evicts :
      (now : ℕ) (q : PoolQueue Time) → let r = evict_idle now q in Evicts q (length r.0) r.1
  unfolding evict_idle
  evict_idle-Evicts now q = record {
    parted = retain-length (is_idle_timeout now q.idle_timeout_ms) q.entries;
    same_bound = refl;
  }

  retain-none :
      (p : PoolEntry Time → Bool) (es : List (PoolEntry Time))
      → All (λ e. p e ≡ false) es
      → retain p es ≡ ([], es)
  unfolding retain
  retain-none p [] h = refl
  retain-none p (e ∷ es) (h, hs) = rw (retain, h, retain-none p es hs) refl

  pub evict_idle-none :
      (now : ℕ) (q : PoolQueue Time)
      → All (λ e. is_idle_timeout now q.idle_timeout_ms e ≡ false) q.entries
      → evict_idle now q ≡ ([], q)
  unfolding evict_idle
  evict_idle-none now q h =
      rw (evict_idle, retain-none (is_idle_timeout now q.idle_timeout_ms) q.entries h) refl

  pub push-empty :
      (s : Sandbox Time) (now : ℕ) (q : PoolQueue Time)
      → q.entries ≡ []
      → 0 < q.max_idle
      → push s now q ≡ (true, record q { entries = new_entry s now ∷ [] })
  unfolding push
  push-empty s now q h k = rw (push, h) (ground arith)
