-- ===== src/Sql/Schema.antt =====
-- src/catalog/catalog.h and the lookups of catalog.cpp, and src/sql/sql_semantics.cpp. The messages of
-- the exceptions are left out: an exception is the reason for it.
use flintdb.Prelude.{
  ℕ, suc, Bool, true, false, Option, none, some, List, [], ◌∷◌, Text, text_eq, if◌then◌else◌,
}
use flintdb.Sql.Ast.{ColumnType, ColumnDef, LiteralKind, LiteralValue}

pub record IndexInfo : Type 0 where
  pub name : Text
  pub table_name : Text
  pub column_name : Text
  pub object_id : ℕ
  pub is_primary_key : Bool

pub record TableInfo : Type 0 where
  pub name : Text
  pub columns : List ColumnDef
  pub primary_key_column : Option Text
  pub heap_object_id : ℕ

pub record Catalog : Type 0 where
  pub tables : List TableInfo
  pub indexes : List IndexInfo

unfoldable pub find_in_columns : List ColumnDef → Text → Option ColumnDef
find_in_columns [] name = none
find_in_columns (c ∷ cs) name = if text_eq c.name name then some c else find_in_columns cs name

unfoldable pub find_column : TableInfo → Text → Option ColumnDef
unfolding find_in_columns
find_column table name = find_in_columns table.columns name

unfoldable pub find_in_tables : List TableInfo → Text → Option TableInfo
find_in_tables [] name = none
find_in_tables (t ∷ ts) name = if text_eq t.name name then some t else find_in_tables ts name

unfoldable pub find_table : Catalog → Text → Option TableInfo
unfolding find_in_tables
find_table catalog name = find_in_tables catalog.tables name

unfoldable pub select_indexes : List IndexInfo → Text → List IndexInfo
select_indexes [] table_name = []
select_indexes (i ∷ is) table_name =
    let rest = select_indexes is table_name in
    if text_eq i.table_name table_name then i ∷ rest else rest

unfoldable pub indexes_on_table : Catalog → Text → List IndexInfo
unfolding select_indexes
indexes_on_table catalog table_name = select_indexes catalog.indexes table_name

-- Why a statement that parses is refused.
pub data SemanticError : Type 0 where
  no_such_table no_such_column wrong_literal_kind wrong_qualifier ambiguous_column self_join :
      SemanticError
  join_on_one_table join_types_differ : SemanticError

-- A call that may throw a SqlSemanticError.
pub data Attempt {κ} (R : Type κ) : Type κ where
  thrown : SemanticError → Attempt R
  returned : R → Attempt R

infixl 5 ◌>>=◌ ◌>>◌
abbrev pub ◌>>=◌ {κ μ} : {R : Type κ} {S : Type μ} → Attempt R → (R → Attempt S) → Attempt S
thrown why >>= next = thrown why
returned r >>= next = next r

abbrev pub ◌>>◌ {μ} : {S : Type μ} → Attempt (Unit {0}) → Attempt S → Attempt S
first >> next = first >>= (λ u. next)

abbrev pub require {κ} : {R : Type κ} → Option R → SemanticError → Attempt R
require none why = thrown why
require (some r) why = returned r

abbrev pub check : Bool → SemanticError → Attempt (Unit {0})
check passes why = if passes then returned tt else thrown why

unfoldable pub require_column : TableInfo → Text → Attempt ColumnDef
require_column table name = require (find_column table name) no_such_column

abbrev pub kinds_match : ColumnType → LiteralKind → Bool
kinds_match ColumnType.integer LiteralKind.integer = true
kinds_match ColumnType.integer LiteralKind.string = false
kinds_match ColumnType.text LiteralKind.integer = false
kinds_match ColumnType.text LiteralKind.string = true

unfoldable pub require_literal_matches_column : ColumnDef → LiteralValue → Attempt (Unit {0})
require_literal_matches_column col value =
    check (kinds_match col.kind value.kind) wrong_literal_kind

unfoldable pub index_in_columns : List ColumnDef → Text → Option ℕ
index_in_columns [] name = none
index_in_columns (c ∷ cs) name =
    if text_eq c.name name
    then some 0
    else elim (index_in_columns cs name) [ none ↦ none | some i ↦ some (suc i) ]

-- The exception after the loop cannot be reached, and is the same one here.
unfoldable pub column_index : TableInfo → Text → Attempt ℕ
unfolding index_in_columns
column_index table name = do
  column ← require_column table name
  require (index_in_columns table.columns name) no_such_column
