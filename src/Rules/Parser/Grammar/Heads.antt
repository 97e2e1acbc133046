-- ===== src/Rules/Parser/Grammar/Heads.antt =====
-- The tokens that a phrase of the grammar begins with, for the parser of
-- crates/enrichment-engine/src/rules/ast.rs.
use bastion.Base.{◌≡◌, refl, Bool, true, false, some, List, [], ◌∷◌, ◌++◌, All, All-append, Text}
use bastion.Rules.Token.{TokenKind}
use bastion.Rules.Lexer.{is_eof}
use bastion.Rules.Expr.{Expr}
use bastion.Rules.Parser.{comparison_of}
use bastion.Rules.Parser.Grammar.{
  Level, callee, Derives, literal_bool, literal_int, literal_str, plain, call, parens, alone,
  compared, positive, negated, single, conjoined, one, disjoined, Arguments, no_arguments, first,
  MoreArguments, no_more, further, Compares, equal, not_equal, greater, less, at_least, at_most,
}

abbrev pub starts : TokenKind → Bool
starts (TokenKind.bool b) = true
starts (TokenKind.int n) = true
starts (TokenKind.str s) = true
starts (TokenKind.ident name) = true
starts TokenKind.count_fact = true
starts TokenKind.any_fact = true
starts TokenKind.all_fact = true
starts TokenKind.duration_gt = true
starts TokenKind.lparen = true
starts _ = false

abbrev pub begins : TokenKind → Bool
begins TokenKind.not = true
begins k = starts k

-- The first token passes the test.
abbrev pub Head : (TokenKind → Bool) → List TokenKind → Type 0
Head t [] = ⊥
Head t (k ∷ ks) = t k ≡ true

pub Head-append : (t : TokenKind → Bool) (ks js : List TokenKind) → Head t ks → Head t (ks ++ js)
Head-append t [] js h = elim h [ ]
Head-append t (k ∷ ks) js h = h

pub Head-begins : (ks : List TokenKind) → Head starts ks → Head begins ks
Head-begins [] h = h
Head-begins (TokenKind.not ∷ ks) h = refl
Head-begins (_ ∷ ks) h = h

pub callee-starts : (k : TokenKind) (name : Text) → callee k ≡ some name → starts k ≡ true
callee-starts (TokenKind.ident n) name h = refl
callee-starts TokenKind.count_fact name h = refl
callee-starts TokenKind.any_fact name h = refl
callee-starts TokenKind.all_fact name h = refl
callee-starts TokenKind.duration_gt name h = refl
callee-starts _ name h = cc

callee-real : (k : TokenKind) (name : Text) → callee k ≡ some name → is_eof k ≡ false
callee-real TokenKind.eof name h = cc
callee-real _ name h = refl

pub operator_found :
    {k : TokenKind} {op : Expr → Expr → Expr} → Compares k op → comparison_of k ≡ some op
unfolding comparison_of
operator_found equal = refl
operator_found not_equal = refl
operator_found greater = refl
operator_found less = refl
operator_found at_least = refl
operator_found at_most = refl

operator_real : {k : TokenKind} {op : Expr → Expr → Expr} → Compares k op → is_eof k ≡ false
operator_real equal = refl
operator_real not_equal = refl
operator_real greater = refl
operator_real less = refl
operator_real at_least = refl
operator_real at_most = refl

module _ (valid : Text → Bool) where
  pub primary-Head :
      {ks : List TokenKind} {e : Expr} → Derives valid Level.primary ks e → Head starts ks
  primary-Head (literal_bool b) = refl
  primary-Head (literal_int n) = refl
  primary-Head (literal_str s) = refl
  primary-Head (plain name) = refl
  primary-Head (call k name ks es e named args built) = callee-starts k name named
  primary-Head (parens ks e d) = refl

  pub comparison-Head :
      {ks : List TokenKind} {e : Expr} → Derives valid Level.comparison ks e → Head starts ks
  comparison-Head (alone d) = primary-Head d
  comparison-Head (compared k op ks js l o r) = Head-append starts ks (k ∷ js) (primary-Head l)

  pub negation-Head :
      {ks : List TokenKind} {e : Expr} → Derives valid Level.negation ks e → Head begins ks
  negation-Head {ks} (positive d) = Head-begins ks (comparison-Head d)
  negation-Head (negated d) = refl

  pub conjunction-Head :
      {ks : List TokenKind} {e : Expr} → Derives valid Level.conjunction ks e → Head begins ks
  conjunction-Head (single d) = negation-Head d
  conjunction-Head (conjoined ks js l r d d') =
      Head-append begins ks (TokenKind.and ∷ js) (conjunction-Head d)

  pub disjunction-Head :
      {ks : List TokenKind} {e : Expr} → Derives valid Level.disjunction ks e → Head begins ks
  disjunction-Head (one d) = conjunction-Head d
  disjunction-Head (disjoined ks js l r d d') =
      Head-append begins ks (TokenKind.or ∷ js) (disjunction-Head d)

  -- No token of a phrase is the end of input.
  mutual
    pub phrase_real :
        {l : Level} {ks : List TokenKind} {e : Expr}
        → Derives valid l ks e
        → All (λ k. is_eof k ≡ false) ks
    phrase_real (literal_bool b) = (refl, tt)
    phrase_real (literal_int n) = (refl, tt)
    phrase_real (literal_str s) = (refl, tt)
    phrase_real (plain name) = (refl, tt)
    phrase_real (call k name ks es e named args built) =
        (callee-real k name named, (refl, All-append _ ks _ (args_real args) (refl, tt)))
    phrase_real (parens ks e d) = (refl, All-append _ ks _ (phrase_real d) (refl, tt))
    phrase_real (alone d) = phrase_real d
    phrase_real (compared k op ks js l o r) =
        All-append _ ks _ (phrase_real l) (operator_real o, phrase_real r)
    phrase_real (positive d) = phrase_real d
    phrase_real (negated d) = (refl, phrase_real d)
    phrase_real (single d) = phrase_real d
    phrase_real (conjoined ks js l r d d') =
        All-append _ ks _ (phrase_real d) (refl, phrase_real d')
    phrase_real (one d) = phrase_real d
    phrase_real (disjoined ks js l r d d') =
        All-append _ ks _ (phrase_real d) (refl, phrase_real d')

    args_real :
        {ks : List TokenKind} {es : List Expr}
        → Arguments valid ks es
        → All (λ k. is_eof k ≡ false) ks
    args_real no_arguments = tt
    args_real (first ks js e es d more) = All-append _ ks _ (phrase_real d) (more_real more)

    more_real :
        {ks : List TokenKind} {es : List Expr}
        → MoreArguments valid ks es
        → All (λ k. is_eof k ≡ false) ks
    more_real no_more = tt
    more_real (further ks js e es d more) =
        (refl, All-append _ ks _ (phrase_real d) (more_real more))
