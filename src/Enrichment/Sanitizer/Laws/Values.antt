-- ===== src/Enrichment/Sanitizer/Laws/Values.antt =====
-- Secret values of a command, crates/enrichment-engine/src/sanitizer.rs.
use mathlib.Core.Option
use mathlib.Core.List.{append-nil}
use bastion.Base.{
  ℕ, zero, suc, ◌+◌, ◌≤◌, ◌≡◌, refl, ap, ◌∙◌, Bool, true, false, not, ◌&&◌, [], ◌∷◌, ◌++◌, nat_eq,
  length, length-append, drop, all, Text, codes, some, arith,
}
use bastion.Enrichment.Sanitizer.Scan.{run, is_quote, ends_value, past_quote, is_ascii_whitespace}
use bastion.Enrichment.Sanitizer.Checks.{
  assignment_end, check_assignment_pattern, bearer, check_bearer_pattern,
}
use bastion.Enrichment.Sanitizer.{redacted, bearer_token, round, sanitize_command}
use bastion.Enrichment.Sanitizer.Laws.Progress.{sanitize-round}
use bastion.Enrichment.Sanitizer.Laws.Rounds.{after, sanitize_where}

-- A scan ends here.
abbrev pub Stops : (ℕ → Bool) → Text → Type 0
Stops test [] = Unit {0}
Stops test (b ∷ s) = test b ≡ false

run-front :
    (test : ℕ → Bool) (front rest : Text)
    → all test front ≡ true
    → Stops test rest
    → run test (front ++ rest) ≡ length front
unfolding run
run-front test [] [] h k = refl
run-front test [] (b ∷ rest) h k = rw k refl
run-front test (b ∷ front) rest h k =
    let now : test b ≡ true = ground arith in
    let later : all test front ≡ true = ground arith in
    rw (run, now, run-front test front rest later k) refl

drop-append :
    (k n : ℕ) (front rest : Text) → k ≡ length front + n → drop k (front ++ rest) ≡ drop n rest
drop-append k n [] rest h = let same : k ≡ n = omega (arith, h) in rw same refl
drop-append zero n (b ∷ front) rest h = absurd (omega arith)
drop-append (suc k) n (b ∷ front) rest h = drop-append k n front rest (omega arith)

drop-front : (front rest : Text) → drop (length front) (front ++ rest) ≡ rest
drop-front front rest = drop-append (length front) 0 front rest (omega arith)

-- The bytes of a token after `Bearer `.
abbrev pub in_bearer_token : ℕ → Bool
in_bearer_token b = not (is_ascii_whitespace b) && not (nat_eq b b'\'')

bearer-round :
    (token rest : Text)
    → all in_bearer_token token ≡ true
    → Stops in_bearer_token rest
    → round (bearer ++ (token ++ rest))
      ≡ (bearer ++ redacted, 7 + (length token + run is_ascii_whitespace rest))
unfolding round check_assignment_pattern check_bearer_pattern bearer_token
bearer-round token rest h k =
    rw (run-front in_bearer_token token rest h k, drop-front token rest) refl

-- The sanitizer at `Bearer `.
at_bearer :
    (token rest : Text)
    → all in_bearer_token token ≡ true
    → Stops in_bearer_token rest
    → sanitize_command (bearer ++ (token ++ rest))
      ≡ Option.map
          (λ t. (bearer ++ redacted) ++ t)
          (sanitize_command (drop (run is_ascii_whitespace rest) rest))
at_bearer token rest h k =
    let moved = 7 + (length token + run is_ascii_whitespace rest) in
    let rounds = sanitize-round b'B' _ _ (bearer-round token rest h k) in
    let left : drop moved (bearer ++ (token ++ rest)) ≡ drop (run is_ascii_whitespace rest) rest =
      drop-append moved (run is_ascii_whitespace rest) (bearer ++ token) rest (omega arith) in
    rounds ∙ ap (λ t. Option.map (λ u. (bearer ++ redacted) ++ u) (sanitize_command t)) left

-- Where the loop, after any number of rounds, stands at `Bearer `, the token there, up to ASCII white
-- space, a single quote or the end, is not written: the output is what those rounds have written,
-- `Bearer ` and the mark, and what the sanitizer makes of the rest behind the white space that follows
-- the token. This is not about a `Bearer ` that a round has passed over as a part of something else.
pub bearer_hidden :
    (n : ℕ) (input written token rest : Text)
    → after n input ≡ (written, bearer ++ (token ++ rest))
    → all in_bearer_token token ≡ true
    → Stops in_bearer_token rest
    → sanitize_command input
      ≡ Option.map
          (λ t. (written ++ (bearer ++ redacted)) ++ t)
          (sanitize_command (drop (run is_ascii_whitespace rest) rest))
bearer_hidden n input written token rest stands h k =
    sanitize_where n input written (bearer ++ (token ++ rest)) (bearer ++ redacted)
      (drop (run is_ascii_whitespace rest) rest) stands (at_bearer token rest h k)

-- The keys that the sanitizer looks for first.
pub data Key : Type 0 where
  token password api_key : Key

abbrev pub pattern_of : Key → Text
pattern_of token = codes "token="
pattern_of password = codes "password="
pattern_of api_key = codes "api_key="

assignment-round :
    (key : Key) (s : Text)
    → round (pattern_of key ++ s)
      ≡ (pattern_of key ++ redacted, length (pattern_of key) + assignment_end s)
unfolding round check_assignment_pattern
assignment-round token s = refl
assignment-round password s = refl
assignment-round api_key s = refl

known_key :
    (key : Key) (s : Text)
    → sanitize_command (pattern_of key ++ s)
      ≡ Option.map
          (λ t. (pattern_of key ++ redacted) ++ t)
          (sanitize_command
            (drop (length (pattern_of key) + assignment_end s) (pattern_of key ++ s)))
known_key token s = sanitize-round _ _ _ (assignment-round token s)
known_key password s = sanitize-round _ _ _ (assignment-round password s)
known_key api_key s = sanitize-round _ _ _ (assignment-round api_key s)

-- The sanitizer at an assignment: the key, the mark, and the rest from the end of the value on.
at_assignment :
    (key : Key) (s : Text)
    → sanitize_command (pattern_of key ++ s)
      ≡ Option.map
          (λ t. (pattern_of key ++ redacted) ++ t)
          (sanitize_command (drop (assignment_end s) s))
at_assignment key s =
    let past : drop (length (pattern_of key) + assignment_end s) (pattern_of key ++ s)
        ≡ drop (assignment_end s) s =
      drop-append _ (assignment_end s) (pattern_of key) s refl in
    known_key key s
    ∙ ap (λ t. Option.map (λ u. (pattern_of key ++ redacted) ++ u) (sanitize_command t)) past

-- The bytes of a plain value, and where one ends that no quote follows.
abbrev pub in_value : ℕ → Bool
in_value b = not (ends_value b)

abbrev pub EndsPlain : Text → Type 0
EndsPlain [] = Unit {0}
EndsPlain (b ∷ s) = (ends_value b ≡ true) × (is_quote b ≡ false)

assignment_end-plain :
    (value rest : Text)
    → all in_value value ≡ true
    → EndsPlain rest
    → assignment_end (value ++ rest) ≡ length value
unfolding assignment_end
assignment_end-plain value [] h k =
    let plain = run-front in_value value [] h tt in
    rw (assignment_end, plain, drop-front value []) plain
assignment_end-plain value (b ∷ rest) h (k, j) =
    let stop : in_value b ≡ false = ground arith in
    let plain = run-front in_value value (b ∷ rest) h stop in
    rw (assignment_end, plain, drop-front value (b ∷ rest), j) plain

quote_ends : (quote : ℕ) → is_quote quote ≡ true → in_value quote ≡ false
quote_ends quote h = ground arith

assignment_end-quote :
    (value : Text) (quote : ℕ) (s : Text)
    → all in_value value ≡ true
    → is_quote quote ≡ true
    → assignment_end (value ++ quote ∷ s)
      ≡ length value + past_quote (run (λ b. not (nat_eq b quote)) s) s
unfolding assignment_end
assignment_end-quote value quote s h k =
    let plain = run-front in_value value (quote ∷ s) h (quote_ends quote k) in
    rw (assignment_end, plain, drop-front value (quote ∷ s), k)
      (ap (λ n. n + past_quote (run (λ b. not (nat_eq b quote)) s) s) plain)

at_plain_value :
    (key : Key) (value rest : Text)
    → all in_value value ≡ true
    → EndsPlain rest
    → sanitize_command (pattern_of key ++ (value ++ rest))
      ≡ Option.map (λ t. (pattern_of key ++ redacted) ++ t) (sanitize_command rest)
at_plain_value key value rest h k =
    let left : drop (assignment_end (value ++ rest)) (value ++ rest) ≡ rest =
      rw (assignment_end-plain value rest h k) (drop-front value rest) in
    at_assignment key (value ++ rest)
    ∙ ap (λ t. Option.map (λ u. (pattern_of key ++ redacted) ++ u) (sanitize_command t)) left

-- Where the loop, after any number of rounds, stands at `token=`, `password=` or `api_key=`, in lower
-- case, and the value there ends at a space, tab, line feed, carriage return, comma, ampersand or the end
-- of the command, the value is not written: the output is what those rounds have written, the key with its equals sign and
-- the mark, and what the sanitizer makes of the rest from that delimiter on. This is not about such a
-- key that a round has passed over as a part of something else.
pub assignment_hidden :
    (n : ℕ) (input written : Text) (key : Key) (value rest : Text)
    → after n input ≡ (written, pattern_of key ++ (value ++ rest))
    → all in_value value ≡ true
    → EndsPlain rest
    → sanitize_command input
      ≡ Option.map (λ t. (written ++ (pattern_of key ++ redacted)) ++ t) (sanitize_command rest)
assignment_hidden n input written key value rest stands h k =
    sanitize_where n input written (pattern_of key ++ (value ++ rest)) (pattern_of key ++ redacted)
      rest stands (at_plain_value key value rest h k)

run-whole : (test : ℕ → Bool) (s : Text) → all test s ≡ true → run test s ≡ length s
unfolding run
run-whole test [] h = refl
run-whole test (b ∷ s) h = ground (arith, run-whole test s)

unclosed :
    (value : Text) (quote : ℕ) (rest : Text)
    → length (value ++ quote ∷ rest) ≤ length value + past_quote (length rest) rest
unclosed value quote rest = ground (arith, length-append value (quote ∷ rest))

drop-all : (n : ℕ) (s : Text) → length s ≤ n → drop n s ≡ []
drop-all zero [] h = refl
drop-all zero (b ∷ s) h = absurd (omega arith)
drop-all (suc n) [] h = refl
drop-all (suc n) (b ∷ s) h = drop-all n s (omega arith)

nothing_written : sanitize_command [] ≡ some []
unfolding sanitize_command
nothing_written = refl

-- Where the loop, after any number of rounds, stands at `token=`, `password=` or `api_key=`, in lower
-- case, and a quote ends the value there, as the closing quote of an argument does, that quote is taken
-- for an opening one: if no such quote follows, the output ends with the key, its equals sign and the
-- mark, and all that follows the value is dropped.
pub assignment_swallows :
    (n : ℕ) (input written : Text) (key : Key) (value : Text) (quote : ℕ) (rest : Text)
    → after n input ≡ (written, pattern_of key ++ (value ++ quote ∷ rest))
    → all in_value value ≡ true
    → is_quote quote ≡ true
    → all (λ b. not (nat_eq b quote)) rest ≡ true
    → sanitize_command input ≡ some (written ++ (pattern_of key ++ redacted))
assignment_swallows n input written key value quote rest stands h k free =
    let others : ℕ → Bool = λ b. not (nat_eq b quote) in
    let whole = value ++ quote ∷ rest in
    let inside : run others rest ≡ length rest = run-whole others rest free in
    let end : assignment_end whole ≡ length value + past_quote (run others rest) rest =
      assignment_end-quote value quote rest h k in
    let beyond : length whole ≤ assignment_end whole =
      rw (end, inside) (unclosed value quote rest) in
    let at_key =
      at_assignment key whole
      ∙ ap (λ t. Option.map (λ u. (pattern_of key ++ redacted) ++ u) (sanitize_command t))
          (drop-all _ whole beyond) in
    sanitize_where n input written (pattern_of key ++ whole) (pattern_of key ++ redacted) [] stands
      at_key
    ∙ ap (Option.map (λ t. (written ++ (pattern_of key ++ redacted)) ++ t)) nothing_written
    ∙ ap some (append-nil (written ++ (pattern_of key ++ redacted)))
