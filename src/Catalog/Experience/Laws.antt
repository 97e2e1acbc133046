-- ===== src/Catalog/Experience/Laws.antt =====
-- The length of the summaries of crates/bastion-domain/src/catalog/experience.rs.
use bastion.Base.{
  ℕ, ◌-◌, ◌≤◌, ◌<◌, ◌≡◌, ◌⊎◌, refl, ap, inl, inr, false, [], ◌∷◌, ◌++◌, leb, nat_eq, Bool-cases,
  Text, arith,
}
use bastion.Base.Chars.{len_utf8}
use bastion.Catalog.Experience.{byte_len, head_within, tail_from, truncated_mark, summarize_output}

head_within-le : (idx : ℕ) (s : Text) → byte_len (head_within idx s) ≤ idx
unfolding head_within
head_within-le idx [] = omega arith
head_within-le idx (c ∷ s) = elim (Bool-cases (leb (len_utf8 c) idx)) [
  | inl fits ↦
      let within : len_utf8 c ≤ idx = ground arith in
      rw fits (omega (arith, within, head_within-le (idx - len_utf8 c) s))
  | inr over ↦ rw over (omega arith)
]

tail_from-le : (idx : ℕ) (s : Text) → byte_len (tail_from idx s) ≤ byte_len s - idx
unfolding tail_from
tail_from-le idx [] = omega arith
tail_from-le idx (c ∷ s) = elim (Bool-cases (nat_eq idx 0)) [
  | inl here ↦ let first : idx ≡ 0 = ground arith in rw (here, first) (omega arith)
  | inr later ↦ rw later (omega (arith, tail_from-le (idx - len_utf8 c) s))
]

tail_from-suffix : (idx : ℕ) (s : Text) → (middle : Text) × (s ≡ middle ++ tail_from idx s)
unfolding tail_from
tail_from-suffix idx [] = ([], refl)
tail_from-suffix idx (c ∷ s) = elim (Bool-cases (nat_eq idx 0)) [
  | inl here ↦ rw here ([], refl)
  | inr later ↦
      let (middle, split) = tail_from-suffix (idx - len_utf8 c) s in
      rw later (c ∷ middle, ap (λ t. c ∷ t) split)
]

-- The head and the tail do not meet.
head-tail :
    (i j : ℕ) (s : Text)
    → i ≤ j
    → (middle : Text) × (s ≡ head_within i s ++ (middle ++ tail_from j s))
unfolding head_within tail_from
head-tail i j [] h = ([], refl)
head-tail i j (c ∷ s) h = elim (Bool-cases (leb (len_utf8 c) i)) [
  | inl fits ↦
      let later : nat_eq j 0 ≡ false = ground arith in
      let (middle, split) = head-tail (i - len_utf8 c) (j - len_utf8 c) s (omega (arith, h)) in
      rw (fits, later) (middle, ap (λ t. c ∷ t) split)
  | inr over ↦ rw over (tail_from-suffix j (c ∷ s))
]

-- A summary is the output itself, if that has at most 1024 bytes; otherwise it is a front and a back
-- of the output, of at most 512 bytes each, and the mark between them, in place of what is left out.
pub summarize_output-keeps :
    (s : Text)
    → ((byte_len s ≤ 1024) × (summarize_output s ≡ s))
      ⊎ ((1024 < byte_len s)
          × (front : Text) × (middle : Text) × (back : Text) × (s ≡ front ++ (middle ++ back))
          × (summarize_output s ≡ front ++ truncated_mark ++ back)
          × (byte_len front ≤ 512)
          × (byte_len back ≤ 512))
unfolding summarize_output
summarize_output-keeps s = elim (Bool-cases (leb (byte_len s) 1024)) [
  | inl short ↦ inl (ground arith, rw short refl)
  | inr long ↦
      let more : 1024 < byte_len s = ground arith in
      let start = byte_len s - 512 in
      let (middle, split) = head-tail 512 start s (omega (arith, more)) in
      inr (
        more,
        head_within 512 s,
        middle,
        tail_from start s,
        split,
        rw long refl,
        head_within-le 512 s,
        omega (arith, more, tail_from-le start s),
      )
]
