-- ===== src/Rules/Evaluator/Order.antt =====
-- The sort of the rules by priority, in crates/enrichment-engine/src/rules/evaluator.rs.
use mathlib.Core.List.{Perm}
use mathlib.Core.List.Perm
use bastion.Base.{◌≡◌, refl, inl, inr, List, [], ◌∷◌, arith, Bool-cases, All, filter, ◌==◌}
use bastion.Base.Int.{ℤ, ℤ_eq, leb_ℤ, ◌≤ℤ◌}
use bastion.Rules.Evaluator.{ParsedRule, insert_rule, sort_rules}

abbrev pub priority : ParsedRule → ℤ
priority r = r.config.priority

-- Every rule stands before those of greater or equal priority number.
abbrev pub Ascending : List ParsedRule → Type 0
Ascending [] = Unit {0}
Ascending (r ∷ rs) = All (λ q. priority r ≤ℤ priority q) rs × Ascending rs

-- The rules of one priority, in their order.
abbrev pub with_priority : ℤ → List ParsedRule → List ParsedRule
with_priority n rs = filter (λ r. priority r == n) rs

insert_rule-perm : (r : ParsedRule) (rs : List ParsedRule) → Perm (insert_rule r rs) (r ∷ rs)
unfolding insert_rule
insert_rule-perm r [] = Perm.refl (r ∷ [])
insert_rule-perm r (q ∷ qs) = elim (Bool-cases (leb_ℤ (priority r) (priority q))) [
  | inl before ↦ rw (before, insert_rule) (Perm.refl (r ∷ q ∷ qs))
  | inr after ↦
      rw (after, insert_rule) (Perm.trans (Perm.cons q (insert_rule-perm r qs)) (Perm.swap r q qs))
]

All-insert_rule :
    (P : ParsedRule → Type 0) (r : ParsedRule) (rs : List ParsedRule)
    → P r
    → All P rs
    → All P (insert_rule r rs)
unfolding insert_rule
All-insert_rule P r [] h k = (h, tt)
All-insert_rule P r (q ∷ qs) h k = elim (Bool-cases (leb_ℤ (priority r) (priority q))) [
  | inl before ↦ rw (before, insert_rule) (h, k)
  | inr after ↦ rw (after, insert_rule) (k.0, All-insert_rule P r qs h k.1)
]

≤ℤ_trans : (a b c : ℤ) → a ≤ℤ b → b ≤ℤ c → a ≤ℤ c
≤ℤ_trans a b c h k = omega arith

All-le :
    (a b : ℤ) (rs : List ParsedRule)
    → a ≤ℤ b
    → All (λ q. b ≤ℤ priority q) rs
    → All (λ q. a ≤ℤ priority q) rs
All-le a b [] h k = tt
All-le a b (r ∷ rs) h (k, ks) = (≤ℤ_trans a b (priority r) h k, All-le a b rs h ks)

insert_rule-Ascending :
    (r : ParsedRule) (rs : List ParsedRule) → Ascending rs → Ascending (insert_rule r rs)
unfolding insert_rule
insert_rule-Ascending r [] h = (tt, tt)
insert_rule-Ascending r (q ∷ qs) (h, hs) = elim (Bool-cases (leb_ℤ (priority r) (priority q))) [
  | inl before ↦
      let le : priority r ≤ℤ priority q = ground arith in
      rw (before, insert_rule) ((le, All-le (priority r) (priority q) qs le h), (h, hs))
  | inr after ↦
      let le : priority q ≤ℤ priority r = ground arith in
      rw (after, insert_rule)
        (All-insert_rule (λ x. priority q ≤ℤ priority x) r qs le h, insert_rule-Ascending r qs hs)
]

insert_rule-stable :
    (n : ℤ) (r : ParsedRule) (rs : List ParsedRule)
    → with_priority n (insert_rule r rs) ≡ with_priority n (r ∷ rs)
unfolding insert_rule
insert_rule-stable n r [] = refl
insert_rule-stable n r (q ∷ qs) = ground (arith, insert_rule-stable n r qs)

pub All-sort_rules :
    (P : ParsedRule → Type 0) (rs : List ParsedRule) → All P rs → All P (sort_rules rs)
unfolding sort_rules
All-sort_rules P [] h = tt
All-sort_rules P (r ∷ rs) (h, hs) = All-insert_rule P r (sort_rules rs) h (All-sort_rules P rs hs)

sort_rules-stable :
    (n : ℤ) (rs : List ParsedRule) → with_priority n (sort_rules rs) ≡ with_priority n rs
unfolding sort_rules
sort_rules-stable n [] = refl
sort_rules-stable n (r ∷ rs) =
    let inserted = insert_rule-stable n r (sort_rules rs) in
    let rest = sort_rules-stable n rs in ground (arith, inserted, rest)

sort_rules-perm : (rs : List ParsedRule) → Perm (sort_rules rs) rs
unfolding sort_rules
sort_rules-perm [] = Perm.refl []
sort_rules-perm (r ∷ rs) =
    Perm.trans (insert_rule-perm r (sort_rules rs)) (Perm.cons r (sort_rules-perm rs))

pub sort_rules-Ascending : (rs : List ParsedRule) → Ascending (sort_rules rs)
unfolding sort_rules
sort_rules-Ascending [] = tt
sort_rules-Ascending (r ∷ rs) = insert_rule-Ascending r (sort_rules rs) (sort_rules-Ascending rs)

-- Sorting keeps the rules, orders them by ascending priority number, and keeps the order of rules
-- with the same number.
pub sort_rules_lem :
    (rs : List ParsedRule)
    → Perm (sort_rules rs) rs
      × Ascending (sort_rules rs)
      × ((n : ℤ) → with_priority n (sort_rules rs) ≡ with_priority n rs)
sort_rules_lem rs = (sort_rules-perm rs, sort_rules-Ascending rs, λ n. sort_rules-stable n rs)
