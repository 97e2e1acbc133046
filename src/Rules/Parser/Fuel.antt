-- ===== src/Rules/Parser/Fuel.antt =====
-- The fuel of `parse` in crates/enrichment-engine/src/rules/ast.rs: the calls that a token pays for.
use bastion.Base.{
  ℕ, zero, suc, ◌+◌, ◌-◌, ◌*◌, ◌≤◌, ◌≡◌, ◌≢◌, Bool, true, Option, none, some, List, arith,
  if◌then◌else◌, Bool-cases, inl, inr, Text, length, ap,
}
use bastion.Base.Chars.{is_ascii_letter}
use bastion.Rules.Token.{TokenKind}
use bastion.Rules.Lexer.{Lexer, at, next_token, is_eof}
use bastion.Rules.Lexer.Stream.{next_token-Divides, next_token_shorter}
use bastion.Rules.Expr.{Expr, ParseError, Result, ok, err, out_of_fuel, ◌>>=◌}
use bastion.Rules.Parser.Calls.Fueled.{Fueled, done, failed, build_call-Fueled}
use bastion.Rules.Parser.{
  Parser, start, comparison_of, compare_with, advance, close, parse_expression, parse_or, or_loop,
  parse_and, and_loop, parse_not, parse_comparison, parse_primary, parse_ident_or_call,
  parse_call_args, args_loop, finish, parse,
}

-- The characters and the token that are left.
abbrev pub measure : Parser → ℕ
measure p = length p.lexer.rest + (if is_eof p.current.kind then 0 else 1)

abbrev state : Lexer → TokenKind → ℕ → Text → Parser
state lx k n s = record { lexer = lx; current = record { kind = k; position = n; lexeme = s } }

-- The run has enough fuel, and leaves at most `n`.
data Leaves {ℓ} {A : Type ℓ} (n : ℕ) : Result (A × Parser) → Type ℓ where
  left : {a : A} {p : Parser} → measure p ≤ n → Leaves n (ok (a, p))
  refused : {e : ParseError} → Leaves n (err e)

Leaves-mono {ℓ} : {A : Type ℓ} {r : Result (A × Parser)} (m n : ℕ) → Leaves m r → m ≤ n → Leaves n r
Leaves-mono m n (left h) le = left (omega arith)
Leaves-mono m n refused le = refused

Leaves-bind {ℓ κ} :
    {A : Type ℓ} {B : Type κ} {r : Result (A × Parser)} {f : A × Parser → Result (B × Parser)}
    (m n : ℕ)
    → Leaves m r
    → ((a : A × Parser) → measure a.1 ≤ m → Leaves n (f a))
    → Leaves n (r >>= f)
Leaves-bind m n (left {a} {p} h) k = k (a, p) h
Leaves-bind m n refused k = refused

Leaves-build {ℓ κ} :
    {A : Type ℓ} {B : Type κ} {r : Result A} {f : A → Result (B × Parser)} (n : ℕ)
    → Fueled r
    → ((a : A) → Leaves n (f a))
    → Leaves n (r >>= f)
Leaves-build n (done {a}) k = k a
Leaves-build n failed k = refused

compared-Leaves :
    (o : Option (Expr → Expr → Expr)) (e : Expr) (q : Parser) {right : Result (Expr × Parser)}
    (n : ℕ)
    → measure q ≤ n
    → Leaves n right
    → Leaves n (compare_with o e q right)
compared-Leaves none e q n b k = left b
compared-Leaves (some op) e q n b k = Leaves-bind n n k (λ a c. left c)

module _ (is_alphanumeric : ℕ → Bool)
    (letters : (c : ℕ) → is_ascii_letter c ≡ true → is_alphanumeric c ≡ true) where
  measure-next_token :
      (lx : Lexer)
      → let r = next_token is_alphanumeric lx in
        measure (record { lexer = r.1; current = r.0 }) ≤ length lx.rest
  measure-next_token lx =
      let d = next_token-Divides is_alphanumeric letters lx in
      let r = next_token is_alphanumeric lx in
      elim (Bool-cases (is_eof r.0.kind)) [
        | inl ended ↦ rw ended (omega (arith, ap length (d.at_end ended).1))
        | inr real ↦ rw real (omega (arith, next_token_shorter is_alphanumeric letters lx real))
      ]

  pub measure-advance : (p : Parser) → measure (advance is_alphanumeric p) ≤ length p.lexer.rest
  unfolding advance
  measure-advance p = measure-next_token p.lexer

  pub measure-start : (input : Text) → measure (start is_alphanumeric input) ≤ length input
  unfolding start
  measure-start input = measure-next_token (at input 0)

  module _ (valid : Text → Bool) where
    close-Leaves {ℓ} :
        {B : Type ℓ} {f : Parser → Result (B × Parser)} (lx : Lexer) (t : TokenKind) (m : ℕ)
        (s : Text) (n : ℕ)
        → ((r : Parser) → measure r ≤ length lx.rest → Leaves n (f r))
        → Leaves n (close is_alphanumeric valid (state lx t m s) >>= f)
    close-Leaves lx TokenKind.rparen m s n k = k _ (measure-advance (state lx TokenKind.rparen m s))
    close-Leaves lx _ m s n k = refused

    mutual
      unfolding parse_expression

      expression-Leaves :
          (f : ℕ) (p : Parser)
          → 9 * measure p + 6 ≤ f
          → Leaves (measure p - 1) (parse_expression is_alphanumeric valid f p)
      expression-Leaves zero p h = absurd (omega arith)
      expression-Leaves (suc f) p h = or-Leaves f p (omega arith)

      or-Leaves :
          (f : ℕ) (p : Parser)
          → 9 * measure p + 5 ≤ f
          → Leaves (measure p - 1) (parse_or is_alphanumeric valid f p)
      or-Leaves zero p h = absurd (omega arith)
      or-Leaves (suc f) p h = Leaves-bind (measure p - 1) _ (and-Leaves f p (omega arith)) (λ a b.
          Leaves-mono _ _ (or_loop-Leaves f a.0 a.1.lexer a.1.current.kind _ _ (omega arith)) b)

      or_loop-Leaves :
          (f : ℕ) (e : Expr) (lx : Lexer) (k : TokenKind) (n : ℕ) (s : Text)
          → 9 * measure (state lx k n s) + 1 ≤ f
          → Leaves (measure (state lx k n s)) (or_loop is_alphanumeric valid f e (state lx k n s))
      or_loop-Leaves zero e lx k n s h = absurd (omega arith)
      or_loop-Leaves (suc f) e lx TokenKind.or n s h =
          let next = measure-advance (state lx TokenKind.or n s) in
          Leaves-bind (length lx.rest) _
            (Leaves-mono _ _ (and-Leaves f _ (omega arith)) (omega arith))
            (λ a b.
              Leaves-mono _ _ (or_loop-Leaves f _ a.1.lexer a.1.current.kind _ _ (omega arith))
                (omega arith))
      or_loop-Leaves (suc f) e lx _ n s h = left (omega arith)

      and-Leaves :
          (f : ℕ) (p : Parser)
          → 9 * measure p + 4 ≤ f
          → Leaves (measure p - 1) (parse_and is_alphanumeric valid f p)
      and-Leaves zero p h = absurd (omega arith)
      and-Leaves (suc f) p h =
          Leaves-bind (measure p - 1) _ (not-Leaves f p.lexer p.current.kind _ _ (omega arith))
            (λ a b.
              Leaves-mono _ _ (and_loop-Leaves f a.0 a.1.lexer a.1.current.kind _ _ (omega arith))
                b)

      and_loop-Leaves :
          (f : ℕ) (e : Expr) (lx : Lexer) (k : TokenKind) (n : ℕ) (s : Text)
          → 9 * measure (state lx k n s) + 1 ≤ f
          → Leaves (measure (state lx k n s)) (and_loop is_alphanumeric valid f e (state lx k n s))
      and_loop-Leaves zero e lx k n s h = absurd (omega arith)
      and_loop-Leaves (suc f) e lx TokenKind.and n s h =
          let next = measure-advance (state lx TokenKind.and n s) in
          Leaves-bind (length lx.rest) _
            (Leaves-mono _ _ (not-Leaves f _ _ _ _ (omega arith)) (omega arith))
            (λ a b.
              Leaves-mono _ _ (and_loop-Leaves f _ a.1.lexer a.1.current.kind _ _ (omega arith))
                (omega arith))
      and_loop-Leaves (suc f) e lx _ n s h = left (omega arith)

      not-Leaves :
          (f : ℕ) (lx : Lexer) (k : TokenKind) (n : ℕ) (s : Text)
          → 9 * measure (state lx k n s) + 3 ≤ f
          → Leaves
              (measure (state lx k n s) - 1)
              (parse_not is_alphanumeric valid f (state lx k n s))
      not-Leaves zero lx k n s h = absurd (omega arith)
      not-Leaves (suc f) lx TokenKind.not n s h =
          let next = measure-advance (state lx TokenKind.not n s) in
          Leaves-bind (length lx.rest) _
            (Leaves-mono _ _ (not-Leaves f _ _ _ _ (omega arith)) (omega arith))
            (λ a b. left (omega arith))
      not-Leaves (suc f) lx k n s h = comparison-Leaves f (state lx k n s) (omega arith)

      comparison-Leaves :
          (f : ℕ) (p : Parser)
          → 9 * measure p + 2 ≤ f
          → Leaves (measure p - 1) (parse_comparison is_alphanumeric valid f p)
      comparison-Leaves zero p h = absurd (omega arith)
      comparison-Leaves (suc f) p h =
          Leaves-bind (measure p - 1) _ (primary-Leaves f p.lexer p.current.kind _ _ (omega arith))
            (λ a b. compared-Leaves (comparison_of a.1.current.kind) a.0 a.1 _ b (
              let next = measure-advance a.1 in
              Leaves-mono _ _ (primary-Leaves f _ _ _ _ (omega arith)) (omega arith)))

      primary-Leaves :
          (f : ℕ) (lx : Lexer) (k : TokenKind) (n : ℕ) (s : Text)
          → 9 * measure (state lx k n s) + 1 ≤ f
          → Leaves
              (measure (state lx k n s) - 1)
              (parse_primary is_alphanumeric valid f (state lx k n s))
      primary-Leaves zero lx k n s h = absurd (omega arith)
      primary-Leaves (suc f) lx (TokenKind.bool b) n s h =
          left (omega (arith, measure-advance (state lx (TokenKind.bool b) n s)))
      primary-Leaves (suc f) lx (TokenKind.int i) n s h =
          left (omega (arith, measure-advance (state lx (TokenKind.int i) n s)))
      primary-Leaves (suc f) lx (TokenKind.str t) n s h =
          left (omega (arith, measure-advance (state lx (TokenKind.str t) n s)))
      primary-Leaves (suc f) lx (TokenKind.ident t) n s h =
          let next = measure-advance (state lx (TokenKind.ident t) n s) in
          Leaves-mono _ _ (ident-Leaves f _ _ _ _ _ (omega arith)) (omega arith)
      primary-Leaves (suc f) lx TokenKind.count_fact n s h =
          let next = measure-advance (state lx TokenKind.count_fact n s) in
          Leaves-mono _ _ (ident-Leaves f _ _ _ _ _ (omega arith)) (omega arith)
      primary-Leaves (suc f) lx TokenKind.any_fact n s h =
          let next = measure-advance (state lx TokenKind.any_fact n s) in
          Leaves-mono _ _ (ident-Leaves f _ _ _ _ _ (omega arith)) (omega arith)
      primary-Leaves (suc f) lx TokenKind.all_fact n s h =
          let next = measure-advance (state lx TokenKind.all_fact n s) in
          Leaves-mono _ _ (ident-Leaves f _ _ _ _ _ (omega arith)) (omega arith)
      primary-Leaves (suc f) lx TokenKind.duration_gt n s h =
          let next = measure-advance (state lx TokenKind.duration_gt n s) in
          Leaves-mono _ _ (ident-Leaves f _ _ _ _ _ (omega arith)) (omega arith)
      primary-Leaves (suc f) lx TokenKind.lparen n s h =
          let next = measure-advance (state lx TokenKind.lparen n s) in
          Leaves-bind (length lx.rest) _
            (Leaves-mono _ _ (expression-Leaves f _ (omega arith)) (omega arith))
            (λ a b. close-Leaves a.1.lexer a.1.current.kind _ _ _ (λ r c. left (omega arith)))
      primary-Leaves (suc f) lx _ n s h = refused

      ident-Leaves :
          (f : ℕ) (name : Text) (lx : Lexer) (k : TokenKind) (n : ℕ) (s : Text)
          → 9 * measure (state lx k n s) + 1 ≤ f
          → Leaves
              (measure (state lx k n s))
              (parse_ident_or_call is_alphanumeric valid f name (state lx k n s))
      ident-Leaves zero name lx k n s h = absurd (omega arith)
      ident-Leaves (suc f) name lx TokenKind.lparen n s h =
          let next = measure-advance (state lx TokenKind.lparen n s) in
          Leaves-bind (length lx.rest) _
            (Leaves-mono _ _ (args-Leaves f _ _ _ _ (omega arith)) (omega arith))
            (λ a b.
              close-Leaves a.1.lexer a.1.current.kind _ _ _
                λ r c. Leaves-build _ (build_call-Fueled name valid a.0) (λ e. left (omega arith)))
      ident-Leaves (suc f) name lx _ n s h = left (omega arith)

      args-Leaves :
          (f : ℕ) (lx : Lexer) (k : TokenKind) (n : ℕ) (s : Text)
          → 9 * measure (state lx k n s) + 7 ≤ f
          → Leaves
              (measure (state lx k n s))
              (parse_call_args is_alphanumeric valid f (state lx k n s))
      args-Leaves zero lx k n s h = absurd (omega arith)
      args-Leaves (suc f) lx TokenKind.rparen n s h = left (omega arith)
      args-Leaves (suc f) lx k n s h =
          Leaves-bind (measure (state lx k n s) - 1) _
            (expression-Leaves f (state lx k n s) (omega arith))
            (λ a b.
              Leaves-mono _ _ (args_loop-Leaves f _ a.1.lexer a.1.current.kind _ _ (omega arith))
                (omega arith))

      args_loop-Leaves :
          (f : ℕ) (es : List Expr) (lx : Lexer) (k : TokenKind) (n : ℕ) (s : Text)
          → 9 * measure (state lx k n s) + 1 ≤ f
          → Leaves
              (measure (state lx k n s))
              (args_loop is_alphanumeric valid f es (state lx k n s))
      args_loop-Leaves zero es lx k n s h = absurd (omega arith)
      args_loop-Leaves (suc f) es lx TokenKind.comma n s h =
          let next = measure-advance (state lx TokenKind.comma n s) in
          Leaves-bind (length lx.rest) _
            (Leaves-mono _ _ (expression-Leaves f _ (omega arith)) (omega arith))
            (λ a b.
              Leaves-mono _ _ (args_loop-Leaves f _ a.1.lexer a.1.current.kind _ _ (omega arith))
                (omega arith))
      args_loop-Leaves (suc f) es lx _ n s h = left (omega arith)

    finish-Leaves :
        {r : Result (Expr × Parser)} {n : ℕ}
        → Leaves n r
        → (r >>= finish is_alphanumeric valid) ≢ out_of_fuel
    unfolding finish
    finish-Leaves (left {a} {p} h) = ground arith
    finish-Leaves refused = λ e. cc

-- The parser ends on every text, with an expression or an error: it never runs out of fuel. It asks
-- of `char::is_alphanumeric` only that ASCII letters pass.
pub parse_total :
    (is_alphanumeric : ℕ → Bool)
    → ((c : ℕ) → is_ascii_letter c ≡ true → is_alphanumeric c ≡ true)
    → (valid : Text → Bool) (input : Text) → parse is_alphanumeric valid input ≢ out_of_fuel
unfolding parse
parse_total is_alphanumeric letters valid input = finish-Leaves is_alphanumeric letters valid (
    expression-Leaves is_alphanumeric letters valid _ (start is_alphanumeric input)
      (omega (arith, measure-start is_alphanumeric letters input)))
