-- ===== src/Rules/Lexer/Stream.antt =====
-- How the tokens of a text divide it, for crates/enrichment-engine/src/rules/lexer.rs.
use bastion.Base.{
  ℕ, zero, suc, ◌+◌, ◌-◌, ◌<◌, ◌≡◌, refl, sym, ap, ◌∙◌, inl, inr, Bool, true, false, some, List, [],
  ◌∷◌, ◌++◌, arith, Bool-cases, Text, length, length-append, take, All, All-append,
}
use mathlib.Core.List.{append_assoc}
use bastion.Base.Chars.{len_utf8, is_whitespace, is_ascii_letter}
use bastion.Rules.Token.{Token}
use bastion.Rules.Lexer.{
  Lexer, skip_from, scan, token_at, next_token, is_eof, tokenize_from, tokenize,
}
use bastion.Rules.Lexer.Progress.{bytes, scan-Scans}

take-prefix : (u r : Text) → take (length (u ++ r) - length r) (u ++ r) ≡ u
take-prefix [] r = let e : length r - length r ≡ 0 = omega arith in rw e
take-prefix (c ∷ u) r =
    let e : suc (length (u ++ r)) - length r ≡ suc (length (u ++ r) - length r) =
      omega (arith, length-append u r) in
    rw e (ap (λ t. c ∷ t) (take-prefix u r))

lexeme-eq :
    (c : ℕ) (s used rest : Text)
    → s ≡ used ++ rest
    → take (length (c ∷ s) - length rest) (c ∷ s) ≡ c ∷ used
lexeme-eq c s used rest split = rw split (take-prefix (c ∷ used) rest)

bytes-append : (s t : Text) → bytes (s ++ t) ≡ bytes s + bytes t
bytes-append [] t = omega arith
bytes-append (c ∷ s) t = omega (arith, bytes-append s t)

-- A gap of whitespace, and the state behind it.
record Gap (s : Text) (pos : ℕ) (lx : Lexer) : Type 0 where
  gap : Text
  blank : All (λ c. is_whitespace c ≡ true) gap
  split : s ≡ gap ++ lx.rest
  count : lx.pos ≡ pos + bytes gap

skip_from-Gap : (s : Text) (pos : ℕ) → Gap s pos (skip_from s pos)
unfolding skip_from
skip_from-Gap [] pos = record { gap = []; blank = tt; split = refl; count = omega arith }
skip_from-Gap (c ∷ s) pos = elim (Bool-cases (is_whitespace c)) [
  | inl white ↦
      let ih = skip_from-Gap s (pos + len_utf8 c) in
      rw (white, skip_from)
        (record {
          gap = c ∷ ih.gap;
          blank = (white, ih.blank);
          split = ap (λ t. c ∷ t) ih.split;
          count = omega (arith, ih.count);
        })
  | inr other ↦
      rw (other, skip_from) (record { gap = []; blank = tt; split = refl; count = omega arith })
]

-- A token and the state behind it divide the text: whitespace, the lexeme, and what is left. The
-- token's position is the byte at which its lexeme begins, and only the end of input is empty.
pub record Divides (s : Text) (pos : ℕ) (t : Token) (lx : Lexer) : Type 0 where
  pub gap : Text
  pub blank : All (λ c. is_whitespace c ≡ true) gap
  pub split : s ≡ gap ++ (t.lexeme ++ lx.rest)
  pub begins : t.position ≡ pos + bytes gap
  pub ends : lx.pos ≡ t.position + bytes t.lexeme
  pub at_end : is_eof t.kind ≡ true → (t.lexeme ≡ []) × (lx.rest ≡ [])
  pub not_empty : is_eof t.kind ≡ false → 0 < length t.lexeme

pub data Spells : Text → ℕ → List Token → Type 0 where
  last :
      {s : Text} {pos : ℕ} {t : Token} {lx : Lexer}
      → Divides s pos t lx
      → is_eof t.kind ≡ true
      → Spells s pos (t ∷ [])
  more :
      {s : Text} {pos : ℕ} {t : Token} {lx : Lexer} {ts : List Token}
      → Divides s pos t lx
      → is_eof t.kind ≡ false
      → Spells lx.rest lx.pos ts
      → Spells s pos (t ∷ ts)

module _ (is_alphanumeric : ℕ → Bool)
    (letters : (c : ℕ) → is_ascii_letter c ≡ true → is_alphanumeric c ≡ true) where
  token_at-Divides :
      (s : Text) (pos : ℕ) → let r = token_at is_alphanumeric s pos in Divides s pos r.0 r.1
  unfolding token_at
  token_at-Divides [] pos = record {
    gap = [];
    blank = tt;
    split = refl;
    begins = omega arith;
    ends = omega arith;
    at_end = λ _. (refl, refl);
    not_empty = λ h. cc;
  }
  token_at-Divides (c ∷ s) pos =
      let scanned = scan-Scans is_alphanumeric letters c s pos in
      let (used, split, count) = scanned.reads in
      let rest = (scan is_alphanumeric c s pos).1.rest in
      rw (lexeme-eq c s used rest split) (record {
        gap = [];
        blank = tt;
        split = ap (λ t. c ∷ t) split;
        begins = omega arith;
        ends = omega (arith, count);
        at_end = λ h. cc (scanned.real);
        not_empty = λ h. omega arith;
      })

  Divides-Gap :
      (s : Text) (pos : ℕ) (lx lx' : Lexer) (t : Token)
      → Gap s pos lx
      → Divides lx.rest lx.pos t lx'
      → Divides s pos t lx'
  Divides-Gap s pos lx lx' t g d = record {
    gap = g.gap ++ d.gap;
    blank = All-append _ g.gap d.gap g.blank d.blank;
    split = g.split ∙ (ap (◌++◌ g.gap) d.split ∙ sym (append_assoc g.gap d.gap _));
    begins = omega (arith, bytes-append g.gap d.gap, d.begins, g.count);
    ends = d.ends;
    at_end = d.at_end;
    not_empty = d.not_empty;
  }

  -- The next token reads whitespace and then its lexeme, and only the end of input gives `Eof`.
  pub next_token-Divides :
      (lx : Lexer) → let r = next_token is_alphanumeric lx in Divides lx.rest lx.pos r.0 r.1
  unfolding next_token
  next_token-Divides lx =
      Divides-Gap lx.rest lx.pos _ _ _ (skip_from-Gap lx.rest lx.pos) (token_at-Divides _ _)

  -- A token that is not the end of input leaves less of the text.
  pub next_token_shorter :
      (lx : Lexer)
      → is_eof (next_token is_alphanumeric lx).0.kind ≡ false
      → length (next_token is_alphanumeric lx).1.rest < length lx.rest
  next_token_shorter lx real =
      let d = next_token-Divides lx in
      let (t, lx') = next_token is_alphanumeric lx in
      omega (
        arith,
        ap length d.split,
        length-append d.gap (t.lexeme ++ lx'.rest),
        length-append t.lexeme lx'.rest,
        d.not_empty real,
      )

  tokenize_from-Spells :
      (f : ℕ) (lx : Lexer)
      → length lx.rest < f
      → (ts : List Token) × (tokenize_from is_alphanumeric f lx ≡ some ts)
        × Spells lx.rest lx.pos ts
  unfolding tokenize_from
  tokenize_from-Spells zero lx h = elim h [ ]
  tokenize_from-Spells (suc f) lx h =
      let d = next_token-Divides lx in
      let (t, lx') = next_token is_alphanumeric lx in
      elim (Bool-cases (is_eof t.kind)) [
        | inl done ↦ (t ∷ [], rw (done, tokenize_from), last d done)
        | inr real ↦
            let short : length lx'.rest < f = omega (arith, next_token_shorter lx real) in
            let (ts, e, rest) = tokenize_from-Spells f lx' short in
            (t ∷ ts, rw (real, tokenize_from, e), more d real rest)
      ]

  -- `tokenize` ends on every text. Its tokens divide the text into whitespace and lexemes, in order,
  -- each at the byte that its position says, and `Eof` is the last of them and no other.
  pub tokenize-Spells :
      (lx : Lexer)
      → (ts : List Token) × (tokenize is_alphanumeric lx ≡ some ts) × Spells lx.rest lx.pos ts
  unfolding tokenize
  tokenize-Spells lx = tokenize_from-Spells (suc (length lx.rest)) lx (omega arith)
