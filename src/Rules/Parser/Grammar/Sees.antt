-- ===== src/Rules/Parser/Grammar/Sees.antt =====
-- The tokens that the parser of crates/enrichment-engine/src/rules/ast.rs sees between two states.
use bastion.Base.{ℕ, ◌≡◌, refl, Bool, true, List, [], ◌∷◌, ◌++◌, Text}
use bastion.Rules.Token.{TokenKind}
use bastion.Rules.Expr.{Expr}
use bastion.Rules.Parser.{Parser, advance}
use bastion.Rules.Parser.Grammar.{MoreArguments, no_more, further}
use bastion.Rules.Parser.Grammar.Follow.{ends_disjunction}
use bastion.Rules.Parser.Grammar.Heads.{Head}

module _ (is_alphanumeric : ℕ → Bool) where
  abbrev pub next : Parser → Parser
  next p = advance is_alphanumeric p

  -- From the one state, the parser sees the tokens and comes to the other.
  pub data Sees : Parser → List TokenKind → Parser → Type 0 where
    here : {p : Parser} → Sees p [] p
    token :
        {p q : Parser} {k : TokenKind} {ks : List TokenKind}
        → p.current.kind ≡ k
        → Sees (advance is_alphanumeric p) ks q
        → Sees p (k ∷ ks) q

  -- The states before and behind a token in the middle.
  pub cut :
      (p q : Parser) (ks : List TokenKind) (k : TokenKind) (js : List TokenKind)
      → Sees p (ks ++ k ∷ js) q
      → (m : Parser) × Sees p ks m × (m.current.kind ≡ k) × Sees (advance is_alphanumeric m) js q
  cut p q [] k js (token e s) = (p, here, e, s)
  cut p q (i ∷ ks) k js (token e s) =
      let (m, front, at_k, back) = cut (next p) q ks k js s in (m, token e front, at_k, back)

  -- The states between the tokens of the one list and those of the other.
  pub cut_between :
      (p q : Parser) (ks js : List TokenKind)
      → Sees p (ks ++ js) q
      → (m : Parser) × Sees p ks m × Sees m js q
  cut_between p q [] js s = (p, here, s)
  cut_between p q (k ∷ ks) js (token e s) =
      let (m, front, back) = cut_between (next p) q ks js s in (m, token e front, back)

module _ (is_alphanumeric : ℕ → Bool) (valid : Text → Bool) where
  pub Sees-Head :
      (t : TokenKind → Bool) (p q : Parser) (ks : List TokenKind)
      → Sees is_alphanumeric p ks q
      → Head t ks
      → t p.current.kind ≡ true
  Sees-Head t p q [] s h = elim h [ ]
  Sees-Head t p q (k ∷ ks) (token e s) h = rw e h

  pub more-ends :
      {js : List TokenKind} {es : List Expr} (p q : Parser)
      → MoreArguments valid js es
      → Sees is_alphanumeric p js q
      → q.current.kind ≡ TokenKind.rparen
      → ends_disjunction p.current.kind ≡ true
  more-ends p q no_more here h = rw h refl
  more-ends p q (further ks js e es d more) (token k s) h = rw k refl

  -- The tokens of a pair of parentheses: what stands inside, then the closing one.
  pub inner :
      (p q : Parser) (ks : List TokenKind)
      → Sees is_alphanumeric p (ks ++ TokenKind.rparen ∷ []) q
      → (m : Parser) × Sees is_alphanumeric p ks m
        × (m.current.kind ≡ TokenKind.rparen)
        × (advance is_alphanumeric m ≡ q)
  inner p q [] (token k here) = (p, here, k, refl)
  inner p q (j ∷ ks) (token k s) =
      let (m, front, closes, after) = inner (advance is_alphanumeric p) q ks s in
      (m, token k front, closes, after)
