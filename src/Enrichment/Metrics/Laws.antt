-- ===== src/Enrichment/Metrics/Laws.antt =====
-- The window of runs of crates/enrichment-engine/src/metrics.rs over sequences of calls.
use bastion.Base.{
  ℕ, ◌≤◌, ◌≡◌, refl, sym, ap, true, false, not, List, [], ◌∷◌, ◌++◌, filter, All, Bool-cases, inl,
  inr, arith,
}
use bastion.Enrichment.Metrics.{expired, prune_old}

-- The instants do not fall.
abbrev pub IsRising : List ℕ → Type 0
IsRising [] = Unit {0}
IsRising (t ∷ timestamps) = All (λ u. t ≤ u) timestamps × IsRising timestamps

-- From an instant within the window on, all are.
pub filter-kept :
    (now t : ℕ) (timestamps : List ℕ)
    → expired now t ≡ false
    → All (λ u. t ≤ u) timestamps
    → filter (λ u. not (expired now u)) timestamps ≡ timestamps
filter-kept now t [] h all_later = refl
filter-kept now t (u ∷ timestamps) h (later, all_later) =
    let inside : expired now u ≡ false = ground arith in
    rw inside (ap (λ rest. u ∷ rest) (filter-kept now t timestamps h all_later))

prune_old-filter :
    (now : ℕ) (timestamps : List ℕ)
    → IsRising timestamps
    → prune_old now timestamps ≡ filter (λ u. not (expired now u)) timestamps
unfolding prune_old
prune_old-filter now [] rising = refl
prune_old-filter now (t ∷ timestamps) (later, rising) = elim (Bool-cases (expired now t)) [
  | inl old ↦ rw old (prune_old-filter now timestamps rising)
  | inr fresh ↦ rw fresh (ap (λ rest. t ∷ rest) (sym (filter-kept now t timestamps fresh later)))
]

pub All-weaken : {P Q : ℕ → Type 0} (ts : List ℕ) → ((t : ℕ) → P t → Q t) → All P ts → All Q ts
All-weaken [] f h = tt
All-weaken (t ∷ ts) f (h, hs) = (f t h, All-weaken ts f hs)

-- What is pruned has expired, and stood before what is left.
pub prune_old-split :
    (now : ℕ) (ts : List ℕ)
    → (pruned : List ℕ) × (ts ≡ pruned ++ prune_old now ts) × All (λ t. expired now t ≡ true) pruned
unfolding prune_old
prune_old-split now [] = ([], refl, tt)
prune_old-split now (t ∷ ts) = elim (Bool-cases (expired now t)) [
  | inl old ↦
      let (pruned, e, h) = prune_old-split now ts in
      (t ∷ pruned, rw old (ap (λ rest. t ∷ rest) e), (old, h))
  | inr fresh ↦ ([], rw fresh refl, tt)
]

-- The first of what is left has not expired.
pub prune_old-first :
    (now : ℕ) (ts : List ℕ)
    → IsRising ts
    → filter (λ u. not (expired now u)) (prune_old now ts) ≡ prune_old now ts
unfolding prune_old
prune_old-first now [] rising = refl
prune_old-first now (t ∷ ts) (later, rising) = elim (Bool-cases (expired now t)) [
  | inl old ↦ rw old (prune_old-first now ts rising)
  | inr fresh ↦ rw fresh (filter-kept now t (t ∷ ts) fresh ((omega arith), later))
]
