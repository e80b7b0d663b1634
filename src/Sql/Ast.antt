-- ===== src/Sql/Ast.antt =====
-- src/sql/ast.h: parsed statements, with the column definitions of src/catalog/catalog.h.
use flintdb.Prelude.{Bool, Option, List, Text}
use flintdb.Prelude.Int.{ℤ}

pub data ColumnType : Type 0 where
  integer text : ColumnType

pub record ColumnDef : Type 0 where
  pub name : Text
  pub kind : ColumnType

pub data LiteralKind : Type 0 where
  integer string : LiteralKind

-- The field that the kind does not name holds its default.
pub record LiteralValue : Type 0 where
  pub kind : LiteralKind
  pub int_value : ℤ
  pub string_value : Text

pub record ColumnRef : Type 0 where
  pub table_name : Option Text
  pub column_name : Text

pub data Comparator : Type 0 where
  eq neq lt le gt ge : Comparator

pub record Predicate : Type 0 where
  pub column : ColumnRef
  pub op : Comparator
  pub value : LiteralValue

pub record Assignment : Type 0 where
  pub column_name : Text
  pub value : LiteralValue

pub record JoinClause : Type 0 where
  pub table_name : Text
  pub left_column : ColumnRef
  pub right_column : ColumnRef

pub record CreateTableStatement : Type 0 where
  pub table_name : Text
  pub columns : List ColumnDef
  pub primary_key_column : Option Text

pub record CreateIndexStatement : Type 0 where
  pub index_name : Text
  pub table_name : Text
  pub column_name : Text

pub record InsertStatement : Type 0 where
  pub table_name : Text
  pub values : List LiteralValue

pub record SelectStatement : Type 0 where
  pub select_star : Bool
  pub select_list : List ColumnRef
  pub from_table : Text
  pub join : Option JoinClause
  pub where_predicates : List Predicate

pub record UpdateStatement : Type 0 where
  pub table_name : Text
  pub assignments : List Assignment
  pub where_predicates : List Predicate

pub record DeleteStatement : Type 0 where
  pub table_name : Text
  pub where_predicates : List Predicate

pub data Statement : Type 0 where
  create_table : CreateTableStatement → Statement
  create_index : CreateIndexStatement → Statement
  insert : InsertStatement → Statement
  select : SelectStatement → Statement
  update : UpdateStatement → Statement
  delete : DeleteStatement → Statement
  begin commit rollback : Statement
