-- ===== src/Rules/Parser/Grammar/Follow.antt =====
-- The tokens that may stand behind what a level of the grammar derives, and what a `match` of the
-- parser in crates/enrichment-engine/src/rules/ast.rs does at them.
use bastion.Base.{◌≡◌, refl, Bool, true, false, none, some}
use bastion.Rules.Token.{TokenKind}
use bastion.Rules.Expr.{Expr}
use bastion.Rules.Parser.{comparison_of}
use bastion.Rules.Parser.Grammar.Heads.{starts, begins}

-- The tokens that may stand behind what a level derives.

abbrev pub no_call : TokenKind → Bool
no_call TokenKind.lparen = false
no_call _ = true

abbrev pub ends_disjunction : TokenKind → Bool
ends_disjunction TokenKind.rparen = true
ends_disjunction TokenKind.comma = true
ends_disjunction TokenKind.eof = true
ends_disjunction _ = false

abbrev pub ends_conjunction : TokenKind → Bool
ends_conjunction TokenKind.or = true
ends_conjunction k = ends_disjunction k

abbrev pub ends_comparison : TokenKind → Bool
ends_comparison TokenKind.and = true
ends_comparison k = ends_conjunction k

pub no_call-ends : (k : TokenKind) → ends_comparison k ≡ true → no_call k ≡ true
no_call-ends TokenKind.lparen h = cc
no_call-ends _ h = refl

pub no_call-comparison :
    (k : TokenKind) (op : Expr → Expr → Expr) → comparison_of k ≡ some op → no_call k ≡ true
unfolding comparison_of
no_call-comparison TokenKind.lparen op h = cc
no_call-comparison _ op h = refl

pub no_comparison : (k : TokenKind) → ends_comparison k ≡ true → comparison_of k ≡ none
unfolding comparison_of
no_comparison TokenKind.eq h = cc
no_comparison TokenKind.ne h = cc
no_comparison TokenKind.gt h = cc
no_comparison TokenKind.lt h = cc
no_comparison TokenKind.ge h = cc
no_comparison TokenKind.le h = cc
no_comparison _ h = refl

pub ends-conjunction : (k : TokenKind) → ends_conjunction k ≡ true → ends_comparison k ≡ true
ends-conjunction TokenKind.and h = refl
ends-conjunction _ h = h

pub ends-disjunction : (k : TokenKind) → ends_disjunction k ≡ true → ends_conjunction k ≡ true
ends-disjunction TokenKind.or h = refl
ends-disjunction _ h = h

-- What a `match` with one named token does at another token.
pub passes-not :
    {A : Type 0} (k : TokenKind) (x y : A)
    → starts k ≡ true
    → (elim k as (λ _. A) [ TokenKind.not ↦ x | _ ↦ y ]) ≡ y
passes-not TokenKind.not x y h = cc
passes-not _ x y h = refl

pub passes-lparen :
    {A : Type 0} (k : TokenKind) (x y : A)
    → no_call k ≡ true
    → (elim k as (λ _. A) [ TokenKind.lparen ↦ x | _ ↦ y ]) ≡ y
passes-lparen TokenKind.lparen x y h = cc
passes-lparen _ x y h = refl

pub passes-rparen :
    {A : Type 0} (k : TokenKind) (x y : A)
    → begins k ≡ true
    → (elim k as (λ _. A) [ TokenKind.rparen ↦ x | _ ↦ y ]) ≡ y
passes-rparen TokenKind.rparen x y h = cc
passes-rparen _ x y h = refl

pub at-rparen :
    {A : Type 0} (k : TokenKind) (x y : A)
    → k ≡ TokenKind.rparen
    → (elim k as (λ _. A) [ TokenKind.rparen ↦ x | _ ↦ y ]) ≡ x
at-rparen k x y h = rw h refl

pub passes-comma :
    {A : Type 0} (k : TokenKind) (x y : A)
    → k ≡ TokenKind.rparen
    → (elim k as (λ _. A) [ TokenKind.comma ↦ x | _ ↦ y ]) ≡ y
passes-comma k x y h = rw h refl

pub passes-and :
    {A : Type 0} (k : TokenKind) (x y : A)
    → ends_conjunction k ≡ true
    → (elim k as (λ _. A) [ TokenKind.and ↦ x | _ ↦ y ]) ≡ y
passes-and TokenKind.and x y h = cc
passes-and _ x y h = refl

pub passes-or :
    {A : Type 0} (k : TokenKind) (x y : A)
    → ends_disjunction k ≡ true
    → (elim k as (λ _. A) [ TokenKind.or ↦ x | _ ↦ y ]) ≡ y
passes-or TokenKind.or x y h = cc
passes-or _ x y h = refl
