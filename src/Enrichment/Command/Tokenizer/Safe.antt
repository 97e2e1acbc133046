-- ===== src/Enrichment/Command/Tokenizer/Safe.antt =====
-- Commands without quotes and backslashes in the tokenizer of
-- crates/enrichment-engine/src/extractors/command_extractor.rs.
use mathlib.Core.List.{append_assoc, append-nil}
use bastion.Base.{
  ℕ, zero, suc, ◌+◌, ◌≡◌, refl, sym, ap, ◌∙◌, inl, inr, Bool, true, false, not, ◌||◌, List, [], ◌∷◌,
  ◌++◌, ltb, nat_eq, if◌then◌else◌, any, all, length, Bool-cases, either-branch, Text, arith,
}
use bastion.Base.Chars.{is_whitespace, is_empty}
use bastion.Enrichment.Command.Tokenizer.{
  Tokenized, ok, err, stuck, ◌>>=◌, single_quote, double_quote, backslash, is_unsafe, len_u32,
  read_word, read_token, tokenize_loop, tokenize,
}

-- Neither a quote nor a backslash.
abbrev pub is_ordinary : ℕ → Bool
is_ordinary c = not (nat_eq c single_quote || nat_eq c double_quote || nat_eq c backslash)

abbrev flush : Text → List Text
flush [] = []
flush (c ∷ word) = (c ∷ word) ∷ []

-- The words of a text that white space separates, after the start of one.
abbrev pub words_from : Text → Text → List Text
words_from word [] = flush word
words_from word (c ∷ s) =
    if is_whitespace c then flush word ++ words_from [] s else words_from (word ++ c ∷ []) s

-- What a reader of a word has passed over is safe, and the word is the first one.
abbrev Passes : Text → Text → Tokenized (Text × Text) → Type 0
Passes word s (ok (t, rest)) =
    (all is_ordinary rest ≡ true)
    × (any is_unsafe rest ≡ false → any is_unsafe s ≡ false)
    × (words_from word s ≡ t ∷ words_from [] rest)
Passes word s (err d) = Unit {0}
Passes word s stuck = Unit {0}

Passes-step :
    (word : Text) (c : ℕ) (s : Text) (r : Tokenized (Text × Text))
    → is_unsafe c ≡ false
    → is_whitespace c ≡ false
    → Passes (word ++ c ∷ []) s r
    → Passes word (c ∷ s) r
Passes-step word c s (ok (t, rest)) safe inside (h, k, j) =
    (h, (λ rest_safe. rw (safe, k rest_safe) refl), rw (words_from, inside) j)
Passes-step word c s (err d) safe inside h = tt
Passes-step word c s stuck safe inside h = tt

read_word-Passes :
    (fuel b : ℕ) (front s : Text)
    → all is_ordinary s ≡ true
    → Passes (b ∷ front) s (read_word fuel (b ∷ front) s)
unfolding read_word
read_word-Passes fuel b front [] h = (refl, (λ safe. refl), refl)
read_word-Passes zero b front (c ∷ s) h = tt
read_word-Passes (suc fuel) b front (c ∷ s) h =
    let word = b ∷ front in
    let P = Passes word (c ∷ s) in
    let later : all is_ordinary s ≡ true = ground arith in
    let no_single : nat_eq c single_quote ≡ false = ground arith in
    let no_double : nat_eq c double_quote ≡ false = ground arith in
    let no_backslash : nat_eq c backslash ≡ false = ground arith in
    elim (Bool-cases (is_whitespace c)) [
      | inl space ↦ rw space (h, (λ safe. safe), rw (words_from, space) refl)
      | inr inside ↦ elim (Bool-cases (is_unsafe c)) [
        | inl bad ↦ rw (inside, bad) tt
        | inr safe ↦
            rw (inside, safe, no_single, no_double, no_backslash)
              (Passes-step word c s _ safe inside
                (read_word-Passes fuel b (front ++ c ∷ []) s later))
      ]
    ]

-- What the loop gives for the text that is left, after the tokens that it has.
abbrev GivesWords : List Text → Text → Tokenized (List Text) → Type 0
GivesWords tokens s (ok out) = (any is_unsafe s ≡ false) × (out ≡ tokens ++ words_from [] s)
GivesWords tokens s (err d) = Unit {0}
GivesWords tokens s stuck = Unit {0}

after_word :
    (tokens : List Text) (t : Text) (c : ℕ) (s rest : Text) (r : Tokenized (List Text))
    → is_unsafe c ≡ false
    → is_whitespace c ≡ false
    → Passes (c ∷ []) s (ok (t, rest))
    → GivesWords (tokens ++ t ∷ []) rest r
    → GivesWords tokens (c ∷ s) r
after_word tokens t c s rest (ok out) safe inside (h, k, j) (g, e) = (
  rw (safe, k g) refl,
  rw (words_from, inside)
      (e ∙ append_assoc tokens (t ∷ []) (words_from [] rest) ∙ ap (λ l. tokens ++ l) (sym j)),
)
after_word tokens t c s rest (err d) safe inside p g = tt
after_word tokens t c s rest stuck safe inside p g = tt

after_space :
    (tokens : List Text) (c : ℕ) (s : Text) (r : Tokenized (List Text))
    → is_unsafe c ≡ false
    → is_whitespace c ≡ true
    → GivesWords tokens s r
    → GivesWords tokens (c ∷ s) r
after_space tokens c s (ok out) safe space (g, e) = (rw (safe, g) refl, rw (words_from, space) e)
after_space tokens c s (err d) safe space g = tt
after_space tokens c s stuck safe space g = tt

-- A token, and the loop after it.
after_token :
    (tokens : List Text) (c : ℕ) (s : Text) (r : Tokenized (Text × Text))
    (f : Text × Text → Tokenized (List Text))
    → is_unsafe c ≡ false
    → is_whitespace c ≡ false
    → Passes (c ∷ []) s r
    → ((t rest : Text)
        → all is_ordinary rest ≡ true
        → GivesWords (tokens ++ t ∷ []) rest (f (t, rest)))
    → GivesWords tokens (c ∷ s) (r >>= f)
after_token tokens c s (ok (t, rest)) f safe inside p g =
    after_word tokens t c s rest (f (t, rest)) safe inside p (g t rest p.0)
after_token tokens c s (err d) f safe inside p g = tt
after_token tokens c s stuck f safe inside p g = tt

loop-GivesWords :
    (fuel max_tokens len : ℕ) (tokens : List Text) (token_count : ℕ) (s : Text)
    → all is_ordinary s ≡ true
    → GivesWords tokens s (tokenize_loop fuel max_tokens len tokens token_count s)
unfolding tokenize_loop read_token
loop-GivesWords fuel max_tokens len tokens token_count [] h = (refl, sym (append-nil tokens))
loop-GivesWords zero max_tokens len tokens token_count (c ∷ s) h = tt
loop-GivesWords (suc fuel) max_tokens len tokens token_count (c ∷ s) h =
    let G = GivesWords tokens (c ∷ s) in
    let later : all is_ordinary s ≡ true = ground arith in
    let no_single : nat_eq c single_quote ≡ false = ground arith in
    let no_double : nat_eq c double_quote ≡ false = ground arith in
    let no_backslash : nat_eq c backslash ≡ false = ground arith in
    elim (Bool-cases (is_unsafe c)) [
      | inl bad ↦ rw bad tt
      | inr safe ↦ elim (Bool-cases (is_whitespace c)) [
        | inl space ↦
            rw (safe, space)
              (after_space tokens c s _ safe space
                (loop-GivesWords fuel max_tokens len tokens token_count s later))
        | inr inside ↦
            rw (safe, inside)
              (either-branch G (ltb max_tokens (token_count + 1)) (err _) _ tt (
                rw (no_single, no_double, no_backslash)
                  (after_token tokens c s (read_word fuel (c ∷ []) s) _ safe inside
                    (read_word-Passes fuel c [] s later)
                    (λ t rest k.
                      loop-GivesWords fuel max_tokens len (tokens ++ t ∷ []) (token_count + 1) rest
                        k))))
      ]
    ]

gives_words :
    (s : Text) (r : Tokenized (List Text)) (tokens : List Text)
    → GivesWords [] s r
    → r ≡ ok tokens
    → (any is_unsafe s ≡ false) × (tokens ≡ words_from [] s)
gives_words s (ok out) tokens (h, e) k = (h, cc)
gives_words s (err d) tokens g k = cc
gives_words s stuck tokens g k = cc

-- A command without quotes and backslashes that is tokenized holds no unsafe character, and its
-- tokens are its words.
pub tokenize-words :
    (command : Text) (max_tokens max_input_len : ℕ) (tokens : List Text)
    → all is_ordinary command ≡ true
    → tokenize command max_tokens max_input_len ≡ ok tokens
    → (any is_unsafe command ≡ false) × (tokens ≡ words_from [] command)
unfolding tokenize
tokenize-words command max_tokens max_input_len tokens h k =
    let G = GivesWords [] command in
    gives_words command _ tokens
      (either-branch G (is_empty command) (err _) _ tt (
        either-branch G (ltb max_input_len (len_u32 command)) (err _) _ tt
          (loop-GivesWords (length command) max_tokens (len_u32 command) [] 0 command h)))
      k
