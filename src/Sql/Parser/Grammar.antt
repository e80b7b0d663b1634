-- ===== src/Sql/Parser/Grammar.antt =====
-- src/sql/parser.cpp: one function for each rule of the grammar. A loop over a list has one unit of fuel
-- for each token that is left, and each of its rounds takes a separator.
use flintdb.Prelude.{
  ℕ, zero, suc, Option, none, some, List, [], ◌∷◌, ◌++◌, Text, length, if◌then◌else◌,
}
use flintdb.Sql.Lexer.{TokenType, tokens, syntax_error, tokenize}
use flintdb.Sql.Ast.{
  ColumnType, ColumnDef, LiteralValue, ColumnRef, Comparator, Predicate, Assignment, JoinClause,
  CreateTableStatement, CreateIndexStatement, InsertStatement, SelectStatement, UpdateStatement,
  DeleteStatement, Statement,
}
use flintdb.Sql.RowCodec.{int_literal, string_literal}
use flintdb.Sql.Parser.{
  Parsed, error_at, out_of_fuel, Parser, ◌>>=◌, ◌>>◌, give, check, advance, match, refuse, expect,
}

unfoldable pub expect_identifier : Parser Text
expect_identifier = do t ← expect TokenType.identifier; give t.spelling

unfoldable pub expect_literal : Parser LiteralValue
expect_literal = do
  is_integer ← check TokenType.integer_literal
  is_string ← check TokenType.string_literal
  if is_integer
      then advance >>= (λ t. give (int_literal t.int_value))
      else if is_string
      then advance >>= (λ t. give (string_literal t.spelling))
      else refuse

unfoldable pub expect_column_type : Parser ColumnType
expect_column_type = do
  is_integer ← match TokenType.integer
  if is_integer
      then give ColumnType.integer
      else match TokenType.text >>= (λ is_text. if is_text then give ColumnType.text else refuse)

unfoldable pub parse_column_ref : Parser ColumnRef
parse_column_ref = do
  first ← expect_identifier
  dotted ← match TokenType.dot
  if dotted
      then expect_identifier
        >>= (λ name. give (record { table_name = some first; column_name = name }))
      else give (record { table_name = none; column_name = first })

-- The first of these token types that the next token has, with what it stands for.
unfoldable pub match_first {ℓ} : {A : Type ℓ} → List (TokenType × A) → Parser A
match_first [] = refuse
match_first (c ∷ cs) = do matched ← match c.0; if matched then give c.1 else match_first cs

unfoldable pub expect_comparator : Parser Comparator
expect_comparator = match_first (
    (TokenType.eq, Comparator.eq)
    ∷ (TokenType.neq, Comparator.neq)
    ∷ (TokenType.lt, Comparator.lt)
    ∷ (TokenType.le, Comparator.le)
    ∷ (TokenType.gt, Comparator.gt)
    ∷ (TokenType.ge, Comparator.ge)
    ∷ [])

unfoldable pub parse_predicate : Parser Predicate
parse_predicate = do
  column ← parse_column_ref
  op ← expect_comparator
  value ← expect_literal
  give (record { column = column; op = op; value = value })

-- `while (Match(separator)) items.push_back(item());`
unfoldable pub parse_more {ℓ} : {A : Type ℓ} → ℕ → TokenType → Parser A → Parser (List A)
parse_more zero separator item ts = out_of_fuel
parse_more (suc fuel) separator item ts =
    (do
      matched ← match separator
      if matched
          then item >>= (λ a. parse_more fuel separator item >>= (λ rest. give (a ∷ rest)))
          else give [])
      ts

-- One item, and the loop after it.
unfoldable pub parse_list {ℓ} : {A : Type ℓ} → TokenType → Parser A → Parser (List A)
parse_list separator item ts =
    (do a ← item; rest ← parse_more (suc (length ts)) separator item; give (a ∷ rest)) ts

unfoldable pub parse_where_clause : Parser (List Predicate)
parse_where_clause = do expect TokenType.where_; parse_list TokenType.and parse_predicate

unfoldable pub parse_optional_where_clause : Parser (List Predicate)
parse_optional_where_clause = do
  is_where ← check TokenType.where_
  if is_where then parse_where_clause else give []

-- `[PRIMARY KEY]`, after a column of this name, with the key that is set so far.
unfoldable pub parse_primary_key : Option Text → Text → Parser (Option Text)
parse_primary_key so_far name = do
  is_primary ← match TokenType.primary
  if is_primary
      then expect TokenType.key >> elim so_far [ none ↦ give (some name) | some other ↦ refuse ]
      else give so_far

-- The loop over the columns: the columns and the primary key so far, and those of the whole table.
unfoldable pub parse_columns :
    ℕ → List ColumnDef → Option Text → Parser (List ColumnDef × Option Text)
parse_columns zero columns so_far ts = out_of_fuel
parse_columns (suc fuel) columns so_far ts =
    (do
      name ← expect_identifier
      kind ← expect_column_type
      primary_key ← parse_primary_key so_far name
      continues ← match TokenType.comma
      if continues
          then parse_columns fuel (columns ++ (record { name = name; kind = kind } ∷ []))
              primary_key
          else give (columns ++ (record { name = name; kind = kind } ∷ []), primary_key))
      ts

unfoldable pub parse_all_columns : Parser (List ColumnDef × Option Text)
parse_all_columns ts = parse_columns (suc (length ts)) [] none ts

unfoldable pub parse_create_table : Parser CreateTableStatement
parse_create_table = do
  expect TokenType.table
  name ← expect_identifier
  expect TokenType.lparen
  made ← parse_all_columns
  expect TokenType.rparen
  give (record { table_name = name; columns = made.0; primary_key_column = made.1 })

unfoldable pub parse_create_index : Parser CreateIndexStatement
parse_create_index = do
  expect TokenType.index
  name ← expect_identifier
  expect TokenType.on
  table_name ← expect_identifier
  expect TokenType.lparen
  column_name ← expect_identifier
  expect TokenType.rparen
  give (record { index_name = name; table_name = table_name; column_name = column_name })

unfoldable pub parse_insert : Parser InsertStatement
parse_insert = do
  expect TokenType.into
  name ← expect_identifier
  expect TokenType.values
  expect TokenType.lparen
  literals ← parse_list TokenType.comma expect_literal
  expect TokenType.rparen
  give (record { table_name = name; values = literals })

unfoldable pub parse_join_clause : Parser JoinClause
parse_join_clause = do
  expect TokenType.join
  name ← expect_identifier
  expect TokenType.on
  left ← parse_column_ref
  expect TokenType.eq
  right ← parse_column_ref
  give (record { table_name = name; left_column = left; right_column = right })

unfoldable pub parse_optional_join : Parser (Option JoinClause)
parse_optional_join = do
  is_join ← check TokenType.join
  if is_join then parse_join_clause >>= (λ j. give (some j)) else give none

unfoldable pub parse_select : Parser SelectStatement
parse_select = do
  star ← match TokenType.star
  columns ← if star then give [] else parse_list TokenType.comma parse_column_ref
  expect TokenType.from
  name ← expect_identifier
  join ← parse_optional_join
  preds ← parse_optional_where_clause
  give (record {
    select_star = star;
    select_list = columns;
    from_table = name;
    join = join;
    where_predicates = preds;
  })

unfoldable pub parse_assignment : Parser Assignment
parse_assignment = do
  name ← expect_identifier
  expect TokenType.eq
  value ← expect_literal
  give (record { column_name = name; value = value })

unfoldable pub parse_update : Parser UpdateStatement
parse_update = do
  name ← expect_identifier
  expect TokenType.set
  assignments ← parse_list TokenType.comma parse_assignment
  preds ← parse_optional_where_clause
  give (record { table_name = name; assignments = assignments; where_predicates = preds })

unfoldable pub parse_delete : Parser DeleteStatement
parse_delete = do
  expect TokenType.from
  name ← expect_identifier
  preds ← parse_optional_where_clause
  give (record { table_name = name; where_predicates = preds })

unfoldable pub parse_create : Parser Statement
parse_create = do
  is_table ← check TokenType.table
  is_index ← check TokenType.index
  if is_table
      then parse_create_table >>= (λ s. give (Statement.create_table s))
      else if is_index
      then parse_create_index >>= (λ s. give (Statement.create_index s))
      else refuse

unfoldable pub parse_one_statement : Parser Statement
parse_one_statement = do
  rule ← match_first (
      (TokenType.create, parse_create)
      ∷ (TokenType.insert, parse_insert >>= (λ s. give (Statement.insert s)))
      ∷ (TokenType.select, parse_select >>= (λ s. give (Statement.select s)))
      ∷ (TokenType.update, parse_update >>= (λ s. give (Statement.update s)))
      ∷ (TokenType.delete, parse_delete >>= (λ s. give (Statement.delete s)))
      ∷ (TokenType.begin, give Statement.begin)
      ∷ (TokenType.commit, give Statement.commit)
      ∷ (TokenType.rollback, give Statement.rollback)
      ∷ [])
  rule

unfoldable pub parse_statement_top_level : Parser Statement
parse_statement_top_level = do
  statement ← parse_one_statement
  match TokenType.semicolon
  at_end ← check TokenType.end_of_input
  if at_end then give statement else refuse

-- `none` is no fuel.
unfoldable pub parse : Text → Option (Parsed Statement)
parse sql = elim (tokenize sql) [
  | none ↦ none
  | some found ↦ elim found [
    | syntax_error n ↦ some (error_at n)
    | tokens ts ↦ some (parse_statement_top_level ts)
  ]
]
