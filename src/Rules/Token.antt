-- ===== src/Rules/Token.antt =====
-- Tokens of the rule language: the types of crates/enrichment-engine/src/rules/lexer.rs.
use bastion.Base.{ℕ, Bool, Text}
use bastion.Base.Int.{ℤ}

pub data TokenKind : Type 0 where
  eof : TokenKind
  int : ℤ → TokenKind
  bool : Bool → TokenKind
  str : Text → TokenKind
  ident : Text → TokenKind
  eq ne gt lt ge le : TokenKind
  and or not : TokenKind
  lparen rparen comma illegal : TokenKind
  any_fact all_fact count_fact duration_gt : TokenKind

pub record Token : Type 0 where
  pub kind : TokenKind
  pub position : ℕ
  pub lexeme : Text
