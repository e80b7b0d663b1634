-- ===== src/Tests/Lexer.antt =====
-- Tokens of small texts, as in tests/test_lexer.cpp.
use flintdb.Prelude.{◌≡◌, refl, some, [], ◌∷◌, Text, text_eq, length}
use flintdb.Prelude.Int.{negsuc}
use flintdb.Sql.Lexer.{
  TokenType, Tokens, tokens, syntax_error, keyword_table, to_upper, find_keyword, take_while,
  digits_value, stoll, scan_string, simple, lex_word, lex_number, lex_string, punctuation,
  lex_comparator, lex_symbol, lex_round, end_token, tokenize_from, tokenize,
}
use flintdb.Sql.Lexer.Progress.{Lexed, tokenize_total}

program : Unit {0}
unfolding text_eq keyword_table to_upper find_keyword take_while digits_value stoll scan_string
    lex_word lex_number lex_string punctuation lex_comparator lex_symbol lex_round tokenize_from
    tokenize
program = tt

-- from a<=-12
abbrev comparison : Text
comparison = b'f' ∷ b'r' ∷ b'o' ∷ b'm' ∷ b' ' ∷ b'a' ∷ b'<' ∷ b'=' ∷ b'-' ∷ b'1' ∷ b'2' ∷ []

comparison_lexed :
    tokenize comparison
    ≡ some (
        tokens (
          simple TokenType.from (b'f' ∷ b'r' ∷ b'o' ∷ b'm' ∷ []) 0
          ∷ simple TokenType.identifier (b'a' ∷ []) 5
          ∷ simple TokenType.le (b'<' ∷ b'=' ∷ []) 6
          ∷ record {
            kind = TokenType.integer_literal;
            spelling = b'-' ∷ b'1' ∷ b'2' ∷ [];
            int_value = negsuc 11;
            position = 8;
          }
          ∷ end_token 11
          ∷ []))
unfolding program
comparison_lexed = refl

-- 'a''b' and 'a
escaped_lexed :
    tokenize (39 ∷ b'a' ∷ 39 ∷ 39 ∷ b'b' ∷ 39 ∷ [])
    ≡ some (tokens (simple TokenType.string_literal (b'a' ∷ 39 ∷ b'b' ∷ []) 0 ∷ end_token 6 ∷ []))
unfolding program
escaped_lexed = refl

unterminated : tokenize (b' ' ∷ 39 ∷ b'a' ∷ []) ≡ some (syntax_error 1)
unfolding program
unterminated = refl

tokenize_total_example :
    (r : Tokens) × (tokenize comparison ≡ some r) × Lexed (length comparison) 0 r
tokenize_total_example = tokenize_total comparison
