-- ===== src/Sandbox/Machine/Counts.antt =====
-- `count_by_status` of crates/bastion-domain/src/provider/state_machine.rs against a count of the
-- entries.
use mathlib.Core.Option.{get_or}
use bastion.Base.{ℕ, suc, ◌+◌, ◌≡◌, List, [], ◌∷◌, arith, if◌then◌else◌, ◌==◌, length}
use bastion.Base.Map.{lookup, insert, lookup-insert}
use bastion.Sandbox.Status.{SandboxStatus, status_eq, status_beq_iff}
use bastion.Sandbox.Machine.{States, add_one_to, count_from, count_by_status}

-- The number of entries with the status.
abbrev pub entries_with : {P : Type 0} → SandboxStatus → States P → ℕ
entries_with s [] = 0
entries_with s (item ∷ m) = (if item.1.status == s then 1 else 0) + entries_with s m

abbrev pub count_of : SandboxStatus → List (SandboxStatus × ℕ) → ℕ
count_of s counts = get_or (lookup s counts) 0

abbrev pub total : List (SandboxStatus × ℕ) → ℕ
total [] = 0
total (c ∷ counts) = c.1 + total counts

count_of-insert :
    (s t : SandboxStatus) (n : ℕ) (counts : List (SandboxStatus × ℕ))
    → count_of s (insert t n counts) ≡ (if t == s then n else count_of s counts)
count_of-insert s t n counts = rw (lookup-insert t s n counts) (ground arith)

count_of-add_one_to :
    (s t : SandboxStatus) (counts : List (SandboxStatus × ℕ))
    → count_of s (add_one_to t counts) ≡ (if t == s then 1 else 0) + count_of s counts
unfolding add_one_to
count_of-add_one_to s t counts = ground (
  arith,
  status_beq_iff t s,
  count_of-insert s t 1 counts,
  count_of-insert s t (get_or (lookup t counts) 0 + 1) counts,
)

total-insert :
    (t : SandboxStatus) (n : ℕ) (counts : List (SandboxStatus × ℕ))
    → total (insert t n counts) + count_of t counts ≡ n + total counts
unfolding lookup insert
total-insert t n [] = omega arith
total-insert t n ((s, k) ∷ counts) = ground (arith, total-insert t n counts)

total-add_one_to :
    (t : SandboxStatus) (counts : List (SandboxStatus × ℕ))
    → total (add_one_to t counts) ≡ suc (total counts)
unfolding add_one_to
total-add_one_to t counts =
    ground (arith, total-insert t 1 counts, total-insert t (get_or (lookup t counts) 0 + 1) counts)

module _ {P : Type 0} where
  count_from-counts :
      (m : States P) (counts : List (SandboxStatus × ℕ))
      → ((s : SandboxStatus)
          → count_of s (count_from counts m) ≡ count_of s counts + entries_with s m)
        × (total (count_from counts m) ≡ total counts + length m)
  unfolding count_from
  count_from-counts [] counts = ((λ s. omega arith), omega arith)
  count_from-counts (item ∷ m) counts =
      let t = item.1.status in
      let ih = count_from-counts m (add_one_to t counts) in
      (
        λ s. omega (arith, ih.0 s, count_of-add_one_to s t counts),
        omega (arith, ih.1, total-add_one_to t counts),
      )

  -- `count_by_status` gives for each status the number of entries that have it, and its numbers add
  -- up to the number of sandboxes.
  pub count_by_status_lem :
      (m : States P)
      → ((s : SandboxStatus) → count_of s (count_by_status m) ≡ entries_with s m)
        × (total (count_by_status m) ≡ length m)
  unfolding count_by_status lookup
  count_by_status_lem m =
      let both = count_from-counts m [] in ((λ s. omega (arith, both.0 s)), omega (arith, both.1))
