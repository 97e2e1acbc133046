-- ===== src/Rules/Parser/Tests.antt =====
-- The grammar of conditions at a concrete text, for crates/enrichment-engine/src/rules/ast.rs.
use bastion.Base.{ℕ, zero, suc, ◌≡◌, refl, Bool, true, ◌||◌, List, [], ◌∷◌, Text, codes}
use bastion.Base.Int.{pos}
use bastion.Base.Chars.{is_ascii_letter, is_ascii_digit, is_whitespace, parse_i32}
use bastion.Rules.Token.{TokenKind}
use bastion.Rules.Lexer.{next_token, skip_whitespace, keyword_kind}
use bastion.Rules.Expr.{Expr, ok}
use bastion.Rules.Parser.{Parser, start, advance, parse}
use bastion.Rules.Parser.Grammar.{
  Level, equal, Derives, literal_int, literal_str, alone, compared, positive, negated, single,
  conjoined, one,
}
use bastion.Rules.Parser.Grammar.Sees.{Sees, here, token}
use bastion.Rules.Parser.Accepts.{parse_complete}

abbrev ascii : ℕ → Bool
ascii c = is_ascii_letter c || is_ascii_digit c

ascii-letters : (c : ℕ) → is_ascii_letter c ≡ true → ascii c ≡ true
ascii-letters c h = rw h refl

abbrev any_regex : Text → Bool
any_regex s = true

abbrev input : Text
input = codes "'a' and not 1 == 2"

abbrev right_tokens : List TokenKind
right_tokens = TokenKind.not ∷ TokenKind.int (pos 1) ∷ TokenKind.eq ∷ TokenKind.int (pos 2) ∷ []

abbrev right : Expr
right = Expr.not (Expr.eq (Expr.int (pos 1)) (Expr.int (pos 2)))

phrase :
    Derives any_regex Level.disjunction
      (TokenKind.str (codes "a") ∷ TokenKind.and ∷ right_tokens)
      (Expr.and (Expr.str (codes "a")) right)
phrase = one (
    conjoined (TokenKind.str (codes "a") ∷ []) right_tokens (Expr.str (codes "a")) right
      (single (positive (alone (literal_str (codes "a")))))
      (negated (
        positive (
          compared TokenKind.eq Expr.eq (TokenKind.int (pos 1) ∷ []) (TokenKind.int (pos 2) ∷ [])
            (literal_int (pos 1)) equal (literal_int (pos 2))))))

-- The state behind so many tokens.
abbrev behind : ℕ → Parser
behind zero = start ascii input
behind (suc n) = advance ascii (behind n)

seen :
    Sees ascii
      (start ascii input)
      (TokenKind.str (codes "a") ∷ TokenKind.and ∷ right_tokens)
      (behind 6)
unfolding start advance next_token skip_whitespace keyword_kind parse_i32 is_whitespace
seen = token refl (token refl (token refl (token refl (token refl (token refl here)))))

at_end : (behind 6).current.kind ≡ TokenKind.eof
unfolding start advance next_token skip_whitespace keyword_kind parse_i32 is_whitespace
at_end = refl

parse_complete_example : parse ascii any_regex input ≡ ok (Expr.and (Expr.str (codes "a")) right)
parse_complete_example =
    parse_complete ascii ascii-letters any_regex input
      (TokenKind.str (codes "a") ∷ TokenKind.and ∷ right_tokens)
      (Expr.and (Expr.str (codes "a")) right) (behind 6) phrase seen at_end
