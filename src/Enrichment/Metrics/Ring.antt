-- ===== src/Enrichment/Metrics/Ring.antt =====
-- The ring of run times of crates/enrichment-engine/src/metrics.rs against all runs recorded.
use mathlib.Core.Path.{subst}
use mathlib.Core.List.{append_assoc}
use bastion.Base.{
  ℕ, suc, ◌≤◌, ◌≡◌, refl, sym, ◌∙◌, ap, ◌⊎◌, All-append, true, List, [], ◌∷◌, ◌++◌, ltb, length,
  All, Bool-cases, inl, inr, arith, length-append,
}
use bastion.Enrichment.Metrics.{ring_capacity, expired, prune_old, cap_ring}
use bastion.Enrichment.Metrics.Laws.{IsRising, prune_old-split, All-weaken}

-- The ring, against the runs that have been recorded and the last reading of the clock: it holds the
-- last of them, at most `room`; those it has lost have expired, unless it is full.
pub record IsRing (room : ℕ) (log : List ℕ) (now : ℕ) (ts : List ℕ) : Type 0 where
  pub lost : List ℕ
  pub split_log : log ≡ lost ++ ts
  pub rising : IsRising log
  pub until : All (λ t. t ≤ now) log
  pub fits : length ts ≤ room
  pub gone : All (λ t. expired now t ≡ true) lost ⊎ (ring_capacity ≤ length ts)

expired_later : (last now t : ℕ) → last ≤ now → expired last t ≡ true → expired now t ≡ true
expired_later last now t h k = ground arith

pub IsRing-later :
    {room : ℕ} {log : List ℕ} {last : ℕ} {ts : List ℕ} (now : ℕ)
    → last ≤ now
    → IsRing room log last ts
    → IsRing room log now ts
IsRing-later {room} {log} {last} {ts} now h r = record {
  lost = r.lost;
  split_log = r.split_log;
  rising = r.rising;
  until = All-weaken log (λ t k. omega (arith, h, k)) r.until;
  fits = r.fits;
  gone = elim r.gone [
    | inl old ↦ inl (All-weaken r.lost (λ t k. expired_later last now t h k) old)
    | inr full ↦ inr full
  ];
}

IsRising-append :
    (now at : ℕ) (log : List ℕ)
    → IsRising log
    → All (λ t. t ≤ now) log
    → now ≤ at
    → IsRising (log ++ at ∷ [])
IsRising-append now at [] rising until h = (tt, tt)
IsRising-append now at (t ∷ log) (later, rising) (k, until) h = (
  All-append (λ u. t ≤ u) log (at ∷ []) later (omega (arith, h, k), tt),
  IsRising-append now at log rising until h,
)

pub IsRing-push :
    {log : List ℕ} {last : ℕ} {ts : List ℕ} (at : ℕ)
    → last ≤ at
    → IsRing ring_capacity log last ts
    → IsRing (suc ring_capacity) (log ++ at ∷ []) at (ts ++ at ∷ [])
IsRing-push {log} {last} {ts} at h r =
    let later = IsRing-later at h r in
    record {
      lost = later.lost;
      split_log =
          ap (λ front. front ++ at ∷ []) later.split_log ∙ append_assoc later.lost ts (at ∷ []);
      rising = IsRising-append last at log r.rising r.until h;
      until = All-append (λ t. t ≤ at) log (at ∷ []) later.until (omega arith, tt);
      fits = omega (arith, length-append ts (at ∷ []), r.fits);
      gone = elim later.gone [
        | inl old ↦ inl old
        | inr full ↦ inr (omega (arith, length-append ts (at ∷ []), full))
      ];
    }

All-member : (u t : ℕ) (lost rest : List ℕ) → All (λ v. u ≤ v) (lost ++ t ∷ rest) → u ≤ t
All-member u t [] rest h = h.0
All-member u t (v ∷ lost) rest h = All-member u t lost rest h.1

-- Whatever stands before an expired entry has expired.
lost_before :
    (now t : ℕ) (lost rest : List ℕ)
    → expired now t ≡ true
    → IsRising (lost ++ t ∷ rest)
    → All (λ u. expired now u ≡ true) lost
lost_before now t [] rest h rising = tt
lost_before now t (u ∷ lost) rest h (later, rising) =
    let below = All-member u t lost rest later in
    (ground arith, lost_before now t lost rest h rising)

pruned_gone :
    (now : ℕ) (lost pruned rest : List ℕ)
    → IsRising (lost ++ (pruned ++ rest))
    → All (λ t. expired now t ≡ true) pruned
    → All (λ t. expired now t ≡ true) lost ⊎ (ring_capacity ≤ length (pruned ++ rest))
    → All (λ t. expired now t ≡ true) (lost ++ pruned) ⊎ (ring_capacity ≤ length rest)
pruned_gone now lost [] rest rising old (inl h) = inl (All-append _ lost [] h tt)
pruned_gone now lost [] rest rising old (inr full) = inr full
pruned_gone now lost (p ∷ pruned) rest rising old h =
    inl (All-append _ lost (p ∷ pruned) (lost_before now p lost (pruned ++ rest) old.0 rising) old)

pub IsRing-prune :
    {room : ℕ} {log : List ℕ} {now : ℕ} {ts : List ℕ}
    → IsRing room log now ts
    → IsRing room log now (prune_old now ts)
IsRing-prune {room} {log} {now} {ts} r =
    let (pruned, e, old) = prune_old-split now ts in
    let rest = prune_old now ts in
    let whole : log ≡ r.lost ++ (pruned ++ rest) = r.split_log ∙ ap (λ back. r.lost ++ back) e in
    record {
      lost = r.lost ++ pruned;
      split_log = whole ∙ sym (append_assoc r.lost pruned rest);
      rising = r.rising;
      until = r.until;
      fits = omega (arith, ap length e, length-append pruned rest, r.fits);
      gone =
          pruned_gone now r.lost pruned rest (subst IsRising whole r.rising) old
            (elim r.gone [ inl h ↦ inl h | inr full ↦ inr (rw (← e) full) ]);
    }

cap_ring-short : (ts : List ℕ) → length ts ≤ ring_capacity → cap_ring ts ≡ ts
unfolding cap_ring
cap_ring-short [] h = refl
cap_ring-short (t ∷ ts) h = ground arith

-- One entry too many is dropped at the front.
cap_ring-cases :
    (ts : List ℕ)
    → length ts ≤ suc ring_capacity
    → ((cap_ring ts ≡ ts) × (length ts ≤ ring_capacity))
      ⊎ ((t : ℕ) × (rest : List ℕ) × (ts ≡ t ∷ rest)
          × (cap_ring ts ≡ rest)
          × (length rest ≡ ring_capacity))
unfolding cap_ring
cap_ring-cases [] h = inl (refl, omega arith)
cap_ring-cases (t ∷ rest) h = elim (Bool-cases (ltb ring_capacity (length (t ∷ rest)))) [
  | inl more ↦
      let full : length rest ≡ ring_capacity = ground arith in
      inr (t, rest, refl, rw more (cap_ring-short rest (omega (arith, full))), full)
  | inr short ↦ inl (rw short refl, ground arith)
]

pub IsRing-cap :
    {log : List ℕ} {now : ℕ} {ts : List ℕ}
    → IsRing (suc ring_capacity) log now ts
    → IsRing ring_capacity log now (cap_ring ts)
IsRing-cap {log} {now} {ts} r = elim (cap_ring-cases ts r.fits) [
  | inl (same, short) ↦ rw same (record {
    lost = r.lost;
    split_log = r.split_log;
    rising = r.rising;
    until = r.until;
    fits = short;
    gone = r.gone;
  })
  | inr (t, rest, e, same, full) ↦ rw same (record {
    lost = r.lost ++ t ∷ [];
    split_log =
        r.split_log ∙ ap (λ back. r.lost ++ back) e ∙ sym (append_assoc r.lost (t ∷ []) rest);
    rising = r.rising;
    until = r.until;
    fits = omega (arith, full);
    gone = inr (omega (arith, full));
  })
]
