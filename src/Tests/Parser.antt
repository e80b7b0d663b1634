-- ===== src/Tests/Parser.antt =====
-- A statement parsed from its text, and one that is refused, as in tests/test_parser.cpp.
use flintdb.Prelude.{◌≡◌, refl, some, none, [], ◌∷◌, Text, text_eq, true}
use flintdb.Prelude.Int.{pos}
use flintdb.Sql.Lexer.{
  keyword_table, to_upper, find_keyword, take_while, digits_value, stoll, scan_string, lex_word,
  lex_number, lex_string, punctuation, lex_comparator, lex_symbol, lex_round, tokenize_from,
  tokenize, end_token,
}
use flintdb.Sql.Ast.{Comparator, Predicate, Statement}
use flintdb.Sql.RowCodec.{int_literal}
use flintdb.Sql.Parser.{parsed, error_at, token_code, check, advance, match, refuse, expect}
use flintdb.Sql.Parser.Grammar.{
  expect_identifier, expect_literal, parse_column_ref, match_first, expect_comparator,
  parse_predicate, parse_more, parse_list, parse_where_clause, parse_optional_where_clause,
  parse_optional_join, parse_select, parse_one_statement, parse_statement_top_level, parse,
}

program : Unit {0}
unfolding text_eq keyword_table to_upper find_keyword take_while digits_value stoll scan_string
    lex_word lex_number lex_string punctuation lex_comparator lex_symbol lex_round tokenize_from
    tokenize token_code check advance match refuse expect expect_identifier expect_literal
    parse_column_ref match_first expect_comparator parse_predicate parse_more parse_list
    parse_where_clause parse_optional_where_clause parse_optional_join parse_select
    parse_one_statement parse_statement_top_level parse
program = tt

-- select*from t where a=1
abbrev selection : Text
selection =
    b's' ∷ b'e' ∷ b'l' ∷ b'e' ∷ b'c' ∷ b't' ∷ b'*' ∷ b'f' ∷ b'r' ∷ b'o' ∷ b'm' ∷ b' ' ∷ b't' ∷ b' '
    ∷ b'w' ∷ b'h' ∷ b'e' ∷ b'r' ∷ b'e' ∷ b' ' ∷ b'a' ∷ b'=' ∷ b'1' ∷ []

abbrev a_is_one : Predicate
a_is_one = record {
  column = record { table_name = none; column_name = b'a' ∷ [] };
  op = Comparator.eq;
  value = int_literal (pos 1);
}

selection_parsed :
    parse selection
    ≡ some (
        parsed
          (Statement.select (record {
            select_star = true;
            select_list = [];
            from_table = b't' ∷ [];
            join = none;
            where_predicates = a_is_one ∷ [];
          }))
          (end_token 23 ∷ []))
unfolding program
selection_parsed = refl

-- begin a
refused : parse (b'b' ∷ b'e' ∷ b'g' ∷ b'i' ∷ b'n' ∷ b' ' ∷ b'a' ∷ []) ≡ some (error_at 6)
unfolding program
refused = refl
