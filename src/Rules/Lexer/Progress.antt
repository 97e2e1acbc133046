-- ===== src/Rules/Lexer/Progress.antt =====
-- What each scanner of crates/enrichment-engine/src/rules/lexer.rs reads:
-- a prefix of its input, whose bytes it counts.
use bastion.Base.{
  ℕ, ◌+◌, ◌≡◌, refl, ap, inl, inr, Bool, true, false, ◌&&◌, ◌||◌, Option, none, some, List, [], ◌∷◌,
  ◌++◌, arith, nat_eq, if◌then◌else◌, Bool-cases, Text, All,
}
use bastion.Base.{text_eq, ◌==◌}
use bastion.Base.Int.{ℤ}
use bastion.Base.Chars.{len_utf8, is_whitespace, is_ascii_digit, is_ascii_letter}
use bastion.Rules.Token.{TokenKind}
use bastion.Rules.Lexer.{
  Lexer, at, advance, skip_from, string_from, run_of, scan, in_word, keyword_kind, keyword_in,
  keywords, int_kind, next_is, is_eof,
}

-- The number of bytes of a text.
abbrev pub bytes : Text → ℕ
bytes [] = 0
bytes (c ∷ s) = len_utf8 c + bytes s

-- The state `lx` stands behind a prefix of `s` that began at byte `pos`.
abbrev pub Reads : Text → ℕ → Lexer → Type 0
Reads s pos lx = (used : Text) × (s ≡ used ++ lx.rest) × (lx.pos ≡ pos + bytes used)

Reads-none : (s : Text) (pos : ℕ) → Reads s pos (at s pos)
Reads-none s pos = ([], refl, omega arith)

Reads-cons :
    (c : ℕ) (s : Text) (pos : ℕ) (lx : Lexer) → Reads s (pos + len_utf8 c) lx → Reads (c ∷ s) pos lx
Reads-cons c s pos lx (used, split, count) = (c ∷ used, ap (λ t. c ∷ t) split, omega arith)

Reads-if :
    (b : Bool) (s : Text) (pos : ℕ) {x y : Lexer}
    → (b ≡ true → Reads s pos x)
    → (b ≡ false → Reads s pos y)
    → Reads s pos (if b then x else y)
Reads-if true s pos hx hy = hx refl
Reads-if false s pos hx hy = hy refl

skip_from-Reads : (s : Text) (pos : ℕ) → Reads s pos (skip_from s pos)
unfolding skip_from
skip_from-Reads [] pos = Reads-none [] pos
skip_from-Reads (c ∷ s) pos =
    Reads-if (is_whitespace c) (c ∷ s) pos
      (λ _. Reads-cons c s pos _ (skip_from-Reads s (pos + len_utf8 c)))
      (λ _. Reads-none (c ∷ s) pos)

string_from-Reads :
    (escaped : Bool) (s : Text) (pos : ℕ) → Reads s pos (string_from escaped s pos).1
unfolding string_from
string_from-Reads escaped [] pos = Reads-none [] pos
string_from-Reads true (c ∷ s) pos =
    Reads-cons c s pos _ (string_from-Reads false s (pos + len_utf8 c))
string_from-Reads false (c ∷ s) pos = elim (Bool-cases (nat_eq c b'\'')) [
  | inl quote ↦ rw (quote, string_from) (Reads-cons c s pos _ (Reads-none s _))
  | inr other ↦
      rw (other, string_from)
        (Reads-cons c s pos _ (string_from-Reads (nat_eq c b'\\') s (pos + len_utf8 c)))
]

run_of-Reads : (test : ℕ → Bool) (s : Text) (pos : ℕ) → Reads s pos (run_of test s pos).1
unfolding run_of
run_of-Reads test [] pos = Reads-none [] pos
run_of-Reads test (c ∷ s) pos = elim (Bool-cases (test c)) [
  | inl in_run ↦ rw (in_run, run_of) (Reads-cons c s pos _ (run_of-Reads test s (pos + len_utf8 c)))
  | inr past ↦ rw (past, run_of) (Reads-none (c ∷ s) pos)
]

-- A run that begins with a character of the run reads that character.
run_of_start :
    (test : ℕ → Bool) (c : ℕ) (s : Text) (pos : ℕ)
    → test c ≡ true
    → Reads s (pos + len_utf8 c) (run_of test (c ∷ s) pos).1
unfolding run_of
run_of_start test c s pos h = rw (h, run_of) (run_of-Reads test s (pos + len_utf8 c))

advance-Reads : (s : Text) (pos : ℕ) → Reads s pos (advance (at s pos))
unfolding advance
advance-Reads [] pos = Reads-none [] pos
advance-Reads (c ∷ s) pos = Reads-cons c s pos _ (Reads-none s (pos + len_utf8 c))

-- What a scanner reads, and that it gives no end of input.
pub record Scans (s : Text) (pos : ℕ) (r : TokenKind × Lexer) : Type 0 where
  pub real : is_eof r.0 ≡ false
  pub reads : Reads s pos r.1

Scans-if :
    (b : Bool) {s : Text} {pos : ℕ} {x y : TokenKind × Lexer}
    → (b ≡ true → Scans s pos x)
    → Scans s pos y
    → Scans s pos (if b then x else y)
Scans-if true hx hy = hx refl
Scans-if false hx hy = hy

int_kind-not_eof : (o : Option ℤ) → is_eof (int_kind o) ≡ false
int_kind-not_eof none = refl
int_kind-not_eof (some n) = refl

keyword_in-not_eof :
    (words : List (Text × TokenKind)) (text : Text)
    → All (λ w. is_eof w.1 ≡ false) words
    → is_eof (keyword_in words text) ≡ false
unfolding keyword_in
keyword_in-not_eof [] text h = refl
keyword_in-not_eof ((word, kind) ∷ rest) text (real, h) = elim (Bool-cases (word == text)) [
  | inl same ↦ rw (same, keyword_in) real
  | inr other ↦ rw (other, keyword_in) (keyword_in-not_eof rest text h)
]

keyword_kind-not_eof : (text : Text) → is_eof (keyword_kind text) ≡ false
unfolding keyword_kind
keyword_kind-not_eof text =
    keyword_in-not_eof keywords text
      (refl, (refl, (refl, (refl, (refl, (refl, (refl, (refl, (refl, tt)))))))))

module _ (is_alphanumeric : ℕ → Bool)
    (letters : (c : ℕ) → is_ascii_letter c ≡ true → is_alphanumeric c ≡ true) where
  starts_word :
      (c : ℕ) → (is_ascii_letter c || nat_eq c b'_') ≡ true → in_word is_alphanumeric c ≡ true
  starts_word c h = ground (arith, letters c)

  -- Every arm reads the character that it looks at, and maybe more, and gives a token.
  pub scan-Scans :
      (c : ℕ) (s : Text) (pos : ℕ) → Scans s (pos + len_utf8 c) (scan is_alphanumeric c s pos)
  unfolding scan
  scan-Scans c s pos =
      let one = Reads-none s (pos + len_utf8 c) in
      let two = advance-Reads s (pos + len_utf8 c) in
      Scans-if (nat_eq c b'(') (λ _. record { real = refl; reads = one })
        (Scans-if (nat_eq c b')') (λ _. record { real = refl; reads = one })
          (Scans-if (nat_eq c b',') (λ _. record { real = refl; reads = one })
            (Scans-if (nat_eq c b'=' && next_is (c ∷ s) b'=')
              (λ _. record { real = refl; reads = two })
              (Scans-if (nat_eq c b'!' && next_is (c ∷ s) b'=')
                (λ _. record { real = refl; reads = two })
                (Scans-if (nat_eq c b'>' && next_is (c ∷ s) b'=')
                  (λ _. record { real = refl; reads = two })
                  (Scans-if (nat_eq c b'<' && next_is (c ∷ s) b'=')
                    (λ _. record { real = refl; reads = two })
                    (Scans-if (nat_eq c b'>') (λ _. record { real = refl; reads = one })
                      (Scans-if (nat_eq c b'<') (λ _. record { real = refl; reads = one })
                        (Scans-if (nat_eq c b'\'')
                          (λ _. record { real = refl; reads = string_from-Reads false s _ })
                          (Scans-if (is_ascii_digit c)
                            (λ h. record {
                              real = int_kind-not_eof _;
                              reads = run_of_start is_ascii_digit c s pos h;
                            })
                            (Scans-if (is_ascii_letter c || nat_eq c b'_')
                              (λ h. record {
                                real =
                                    keyword_kind-not_eof
                                      ((run_of (in_word is_alphanumeric) (c ∷ s) pos).0);
                                reads =
                                    run_of_start (in_word is_alphanumeric) c s pos
                                      (starts_word c h);
                              })
                              (record { real = refl; reads = one }))))))))))))
