-- ===== src/Rules/Parser/Grammar.antt =====
-- The grammar of conditions, which the comments and the shape of the parser in
-- crates/enrichment-engine/src/rules/ast.rs give: `or` binds weaker than `and`, that than `not`, and
-- that than a comparison, which does not associate; `and` and `or` group to the left.
pub mod Follow
pub mod Heads
pub mod Sees
pub mod Loops
use bastion.Base.{ℕ, ◌≡◌, Bool, true, false, Option, none, some, List, [], ◌∷◌, ◌++◌, Text, codes}
use bastion.Base.Int.{ℤ}
use bastion.Rules.Token.{TokenKind}
use bastion.Rules.Expr.{Expr, Result, ok}
use bastion.Rules.Parser.{comparison_of}
use bastion.Rules.Parser.Calls.{build_call, plain_identifier}

pub data Level : Type 0 where
  primary comparison negation conjunction disjunction : Level

-- The tokens that may name a function.
abbrev pub callee : TokenKind → Option Text
callee (TokenKind.ident name) = some name
callee TokenKind.count_fact = some (codes "count_fact")
callee TokenKind.any_fact = some (codes "any_fact")
callee TokenKind.all_fact = some (codes "all_fact")
callee TokenKind.duration_gt = some (codes "duration_gt")
callee _ = none

-- The comparison operators and what they build.
pub data Compares : TokenKind → (Expr → Expr → Expr) → Type 0 where
  equal : Compares TokenKind.eq Expr.eq
  not_equal : Compares TokenKind.ne Expr.ne
  greater : Compares TokenKind.gt Expr.gt
  less : Compares TokenKind.lt Expr.lt
  at_least : Compares TokenKind.ge Expr.ge
  at_most : Compares TokenKind.le Expr.le

module _ (is_valid_regex : Text → Bool) where
  mutual
    -- The tokens spell the expression, at the level.
    pub data Derives : Level → List TokenKind → Expr → Type 0 where
      literal_bool : (b : Bool) → Derives Level.primary (TokenKind.bool b ∷ []) (Expr.bool b)
      literal_int : (n : ℤ) → Derives Level.primary (TokenKind.int n ∷ []) (Expr.int n)
      literal_str : (s : Text) → Derives Level.primary (TokenKind.str s ∷ []) (Expr.str s)
      plain :
          (name : Text) → Derives Level.primary (TokenKind.ident name ∷ []) (plain_identifier name)
      call :
          (k : TokenKind) (name : Text) (ks : List TokenKind) (es : List Expr) (e : Expr)
          → callee k ≡ some name
          → Arguments ks es
          → build_call is_valid_regex name es ≡ ok e
          → Derives Level.primary (k ∷ TokenKind.lparen ∷ (ks ++ TokenKind.rparen ∷ [])) e
      parens :
          (ks : List TokenKind) (e : Expr)
          → Derives Level.disjunction ks e
          → Derives Level.primary (TokenKind.lparen ∷ (ks ++ TokenKind.rparen ∷ [])) e
      alone :
          {ks : List TokenKind} {e : Expr}
          → Derives Level.primary ks e
          → Derives Level.comparison ks e
      compared :
          (k : TokenKind) (op : Expr → Expr → Expr) (ks js : List TokenKind) {l r : Expr}
          → Derives Level.primary ks l
          → Compares k op
          → Derives Level.primary js r
          → Derives Level.comparison (ks ++ k ∷ js) (op l r)
      positive :
          {ks : List TokenKind} {e : Expr}
          → Derives Level.comparison ks e
          → Derives Level.negation ks e
      negated :
          {ks : List TokenKind} {e : Expr}
          → Derives Level.negation ks e
          → Derives Level.negation (TokenKind.not ∷ ks) (Expr.not e)
      single :
          {ks : List TokenKind} {e : Expr}
          → Derives Level.negation ks e
          → Derives Level.conjunction ks e
      conjoined :
          (ks js : List TokenKind) (l r : Expr)
          → Derives Level.conjunction ks l
          → Derives Level.negation js r
          → Derives Level.conjunction (ks ++ TokenKind.and ∷ js) (Expr.and l r)
      one :
          {ks : List TokenKind} {e : Expr}
          → Derives Level.conjunction ks e
          → Derives Level.disjunction ks e
      disjoined :
          (ks js : List TokenKind) (l r : Expr)
          → Derives Level.disjunction ks l
          → Derives Level.conjunction js r
          → Derives Level.disjunction (ks ++ TokenKind.or ∷ js) (Expr.or l r)

    pub data Arguments : List TokenKind → List Expr → Type 0 where
      no_arguments : Arguments [] []
      first :
          (ks js : List TokenKind) (e : Expr) (es : List Expr)
          → Derives Level.disjunction ks e
          → MoreArguments js es
          → Arguments (ks ++ js) (e ∷ es)

    pub data MoreArguments : List TokenKind → List Expr → Type 0 where
      no_more : MoreArguments [] []
      further :
          (ks js : List TokenKind) (e : Expr) (es : List Expr)
          → Derives Level.disjunction ks e
          → MoreArguments js es
          → MoreArguments (TokenKind.comma ∷ (ks ++ js)) (e ∷ es)
