-- ===== src/Rules/Parser/Complete.antt =====
-- The parser of crates/enrichment-engine/src/rules/ast.rs on what its grammar derives.
use bastion.Base.{
  ℕ, zero, suc, ◌+◌, ◌*◌, ◌≤◌, ◌≡◌, refl, ap, ◌∙◌, Bool, true, some, List, [], ◌∷◌, ◌++◌, arith,
  length, length-append, Text,
}
use mathlib.Core.List.{append_assoc, append-nil}
use bastion.Rules.Token.{TokenKind}
use bastion.Rules.Expr.{Expr, ok}
use bastion.Rules.Parser.{
  Parser, comparison_of, advance, close, parse_or, or_loop, parse_and, and_loop, parse_not,
  parse_comparison, parse_primary, parse_call_args, args_loop,
}
use bastion.Rules.Parser.Grammar.{
  Level, Derives, literal_bool, literal_int, literal_str, plain, call, parens, alone, compared,
  positive, negated, single, conjoined, one, disjoined, Arguments, no_arguments, first,
  MoreArguments, no_more, further,
}
use bastion.Rules.Parser.Grammar.Follow.{
  no_call, ends_conjunction, ends_comparison, no_call-ends, no_call-comparison, no_comparison,
  ends-conjunction, ends-disjunction, passes-not, passes-rparen, at-rparen, passes-comma,
}
use bastion.Rules.Parser.Grammar.Heads.{
  operator_found, starts, begins, Head-append, comparison-Head, disjunction-Head,
}
use bastion.Rules.Parser.Grammar.Sees.{
  Sees, here, token, cut, cut_between, inner, Sees-Head, more-ends,
}
use bastion.Rules.Parser.Grammar.Loops.{
  plain-parses, callee-parses, and-done, or-done, and-further, or-further, call-done,
}

module _ (is_alphanumeric : ℕ → Bool) (valid : Text → Bool) where
  mutual
    unfolding parse_primary advance

    primary-parses :
        {ks : List TokenKind} {e : Expr}
        → Derives valid Level.primary ks e
        → (f : ℕ) (p q : Parser) → Sees is_alphanumeric p ks q
        → no_call q.current.kind ≡ true
        → 9 * length ks ≤ f
        → parse_primary is_alphanumeric valid f p ≡ ok (e, q)
    primary-parses (literal_bool b) zero p q s h le = absurd (omega arith)
    primary-parses (literal_bool b) (suc f) p q (token k here) h le = rw (parse_primary, k) refl
    primary-parses (literal_int n) zero p q s h le = absurd (omega arith)
    primary-parses (literal_int n) (suc f) p q (token k here) h le = rw (parse_primary, k) refl
    primary-parses (literal_str t) zero p q s h le = absurd (omega arith)
    primary-parses (literal_str t) (suc f) p q (token k here) h le = rw (parse_primary, k) refl
    primary-parses (plain name) zero p q s h le = absurd (omega arith)
    primary-parses (plain name) (suc f) p q (token k here) h le =
        rw (parse_primary, k) (plain-parses is_alphanumeric valid f name q h (omega arith))
    primary-parses (parens ks e d) zero p q s h le = absurd (omega arith)
    primary-parses (parens ks e d) (suc zero) p q s h le = absurd (omega arith)
    primary-parses (parens ks e d) (suc (suc f)) p q (token k s) h le =
        let (m, front, closes, after) =
          inner is_alphanumeric valid (advance is_alphanumeric p) q ks s in
        let room : 9 * length ks + 4 ≤ f =
          omega (arith, le, length-append ks (TokenKind.rparen ∷ [])) in
        let loop =
          disjunction-parses d f (advance is_alphanumeric p) m front (rw closes refl) room in
        let inside =
          or-done is_alphanumeric valid f (9 * length ks) (advance is_alphanumeric p) m e loop
            (rw closes refl) (omega (arith, room)) in
        rw (parse_primary, k, inside, close, closes, after) refl
    primary-parses (call k name ks es e named args built) zero p q s h le = absurd (omega arith)
    primary-parses (call k name ks es e named args built) (suc zero) p q s h le =
        absurd (omega arith)
    primary-parses (call k name ks es e named args built) (suc (suc f)) p q
          (token at_k (token opens s)) h le =
        let p1 = advance is_alphanumeric p in
        let (m, front, closes, after) =
          inner is_alphanumeric valid (advance is_alphanumeric p1) q ks s in
        let parsed =
          args_parse args f (advance is_alphanumeric p1) m front closes
            (omega (arith, le, length-append ks (TokenKind.rparen ∷ []))) in
        callee-parses is_alphanumeric valid (suc f) k name p at_k named
        ∙ call-done is_alphanumeric valid f name p1 m q es e opens parsed closes after built

    args_parse :
        {ks : List TokenKind} {es : List Expr}
        → Arguments valid ks es
        → (f : ℕ) (p q : Parser) → Sees is_alphanumeric p ks q
        → q.current.kind ≡ TokenKind.rparen
        → 9 * length ks + 7 ≤ f
        → parse_call_args is_alphanumeric valid f p ≡ ok (es, q)
    args_parse args zero p q s h le = absurd (omega arith)
    args_parse args (suc zero) p q s h le = absurd (omega arith)
    args_parse no_arguments (suc (suc f)) p q here h le = at-rparen p.current.kind _ _ h
    args_parse (first ks js e es d more) (suc (suc f)) p q s h le =
        let (m, front, back) = cut_between is_alphanumeric p q ks js s in
        let size = length-append ks js in
        let ends = more-ends is_alphanumeric valid m q more back h in
        let loop =
          disjunction-parses d f p m front (ends-disjunction m.current.kind ends)
            (omega (arith, le, size)) in
        let argument =
          or-done is_alphanumeric valid f (9 * length ks) p m e loop ends
            (omega (arith, le, size)) in
        let rest = more_parse more (suc f) (e ∷ []) m q back h (omega (arith, le, size)) in
        let head = Head-append begins ks js (disjunction-Head valid d) in
        passes-rparen p.current.kind _ _
          (Sees-Head is_alphanumeric valid begins p q (ks ++ js) s head)
        ∙ rw (argument, rest) refl

    more_parse :
        {js : List TokenKind} {es : List Expr}
        → MoreArguments valid js es
        → (f : ℕ) (before : List Expr) (p q : Parser) → Sees is_alphanumeric p js q
        → q.current.kind ≡ TokenKind.rparen
        → 9 * length js + 1 ≤ f
        → args_loop is_alphanumeric valid f before p ≡ ok (before ++ es, q)
    more_parse more zero before p q s h le = absurd (omega arith)
    more_parse no_more (suc f) before p q here h le =
        passes-comma p.current.kind _ _ h ∙ rw (append-nil before) refl
    more_parse (further ks js e es d more) (suc zero) before p q s h le = absurd (omega arith)
    more_parse (further ks js e es d more) (suc (suc f)) before p q (token k s) h le =
        let p1 = advance is_alphanumeric p in
        let (m, front, back) = cut_between is_alphanumeric p1 q ks js s in
        let size = length-append ks js in
        let ends = more-ends is_alphanumeric valid m q more back h in
        let loop =
          disjunction-parses d f p1 m front (ends-disjunction m.current.kind ends)
            (omega (arith, le, size)) in
        let argument =
          or-done is_alphanumeric valid f (9 * length ks) p1 m e loop ends
            (omega (arith, le, size)) in
        let rest =
          more_parse more (suc f) (before ++ e ∷ []) m q back h (omega (arith, le, size)) in
        rw (args_loop, k, argument, rest, append_assoc before (e ∷ []) es) refl

    pub disjunction-parses :
        {ks : List TokenKind} {e : Expr}
        → Derives valid Level.disjunction ks e
        → (f : ℕ) (p q : Parser) → Sees is_alphanumeric p ks q
        → ends_conjunction q.current.kind ≡ true
        → 9 * length ks + 4 ≤ f
        → (g : ℕ) × (f ≤ g + 9 * length ks + 1)
          × (parse_or is_alphanumeric valid f p ≡ or_loop is_alphanumeric valid g e q)
    disjunction-parses d zero p q s h le = absurd (omega arith)
    disjunction-parses {ks} {e} (one d) (suc f) p q s h le =
        let loop = conjunction-parses d f p q s (ends-conjunction q.current.kind h) (omega arith) in
        let first = and-done is_alphanumeric valid f (9 * length ks) p q e loop h (omega arith) in
        (f, omega arith, rw (parse_or, first) refl)
    disjunction-parses (disjoined ks js l r d d') f p q s h le =
        let (m, front, k, back) = cut is_alphanumeric p q ks TokenKind.or js s in
        let size = length-append ks (TokenKind.or ∷ js) in
        let left = disjunction-parses d f p m front (rw k refl) (omega (arith, le, size)) in
        or-further is_alphanumeric valid f (9 * length ks) (9 * length js + 3)
          (9 * length (ks ++ TokenKind.or ∷ js)) p m q l r left k
          (λ g b.
            and-done is_alphanumeric valid g (9 * length js) (advance is_alphanumeric m) q r
              (conjunction-parses d' g (advance is_alphanumeric m) q back
                (ends-conjunction q.current.kind h) b)
              h (omega (arith, b)))
          (omega (arith, le, size)) (omega (arith, size))

    conjunction-parses :
        {ks : List TokenKind} {e : Expr}
        → Derives valid Level.conjunction ks e
        → (f : ℕ) (p q : Parser) → Sees is_alphanumeric p ks q
        → ends_comparison q.current.kind ≡ true
        → 9 * length ks + 3 ≤ f
        → (g : ℕ) × (f ≤ g + 9 * length ks + 1)
          × (parse_and is_alphanumeric valid f p ≡ and_loop is_alphanumeric valid g e q)
    conjunction-parses d zero p q s h le = absurd (omega arith)
    conjunction-parses (single d) (suc f) p q s h le =
        let e = negation-parses d f p q s h (omega arith) in
        (f, omega arith, rw (parse_and, e) refl)
    conjunction-parses (conjoined ks js l r d d') f p q s h le =
        let (m, front, k, back) = cut is_alphanumeric p q ks TokenKind.and js s in
        let size = length-append ks (TokenKind.and ∷ js) in
        let left = conjunction-parses d f p m front (rw k refl) (omega (arith, le, size)) in
        and-further is_alphanumeric valid f (9 * length ks) (9 * length js + 2)
          (9 * length (ks ++ TokenKind.and ∷ js)) p m q l r left k
          (λ g b. negation-parses d' g (advance is_alphanumeric m) q back h b)
          (omega (arith, le, size)) (omega (arith, size))

    negation-parses :
        {ks : List TokenKind} {e : Expr}
        → Derives valid Level.negation ks e
        → (f : ℕ) (p q : Parser) → Sees is_alphanumeric p ks q
        → ends_comparison q.current.kind ≡ true
        → 9 * length ks + 2 ≤ f
        → parse_not is_alphanumeric valid f p ≡ ok (e, q)
    negation-parses d zero p q s h le = absurd (omega arith)
    negation-parses {ks} (positive d) (suc f) p q s h le =
        passes-not p.current.kind _ _
          (Sees-Head is_alphanumeric valid starts p q ks s (comparison-Head valid d))
        ∙ comparison-parses d f p q s h (omega arith)
    negation-parses (negated d) (suc f) p q (token k s) h le =
        let e = negation-parses d f (advance is_alphanumeric p) q s h (omega arith) in
        rw (parse_not, k, e) refl

    comparison-parses :
        {ks : List TokenKind} {e : Expr}
        → Derives valid Level.comparison ks e
        → (f : ℕ) (p q : Parser) → Sees is_alphanumeric p ks q
        → ends_comparison q.current.kind ≡ true
        → 9 * length ks + 1 ≤ f
        → parse_comparison is_alphanumeric valid f p ≡ ok (e, q)
    comparison-parses d zero p q s h le = absurd (omega arith)
    comparison-parses (alone d) (suc f) p q s h le =
        let e = primary-parses d f p q s (no_call-ends q.current.kind h) (omega arith) in
        rw (parse_comparison, e, no_comparison q.current.kind h) refl
    comparison-parses (compared k op ks js l o r) (suc f) p q s h le =
        let (m, front, at_k, back) = cut is_alphanumeric p q ks k js s in
        let size = length-append ks (k ∷ js) in
        let left =
          primary-parses l f p m front (rw at_k (no_call-comparison k op (operator_found o)))
            (omega (arith, le, size)) in
        let right =
          primary-parses r f (advance is_alphanumeric m) q back (no_call-ends q.current.kind h)
            (omega (arith, le, size)) in
        let found : comparison_of m.current.kind ≡ some op =
          ap comparison_of at_k ∙ operator_found o in
        rw (parse_comparison, left, found, right) refl
