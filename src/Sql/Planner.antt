-- ===== src/Sql/Planner.antt =====
-- src/sql/planner.h and planner.cpp: how the rows of a statement are found.
pub mod Access
pub mod Division
pub mod Driving
pub mod Join
pub mod OnClause
pub mod Sides
pub mod Usable
pub mod Validity
use flintdb.Prelude.{
  ℕ, suc, ◌+◌, Bool, true, false, ◌&&◌, Option, none, some, List, [], ◌∷◌, Text, text_eq, ◌==◌,
  if◌then◌else◌,
}
use flintdb.Prelude.Int.{ℤ, pos}
use flintdb.Sql.Ast.{
  ColumnType, ColumnDef, LiteralKind, LiteralValue, ColumnRef, Comparator, Predicate, JoinClause,
  SelectStatement,
}
use flintdb.Sql.Schema.{
  IndexInfo, TableInfo, Catalog, find_column, find_table, indexes_on_table, SemanticError, Attempt,
  returned, thrown, ◌>>=◌, ◌>>◌, require, check, require_column, require_literal_matches_column,
}

pub data ScanMethod : Type 0 where
  seq_scan index_scan : ScanMethod

pub record TableAccessPlan : Type 0 where
  pub table_name : Text
  pub method : ScanMethod
  pub index_name : Text
  pub index_key : ℤ
  pub residual_predicates : List Predicate

pub record JoinPlan : Type 0 where
  pub outer : TableAccessPlan
  pub inner_table_name : Text
  pub inner_method : ScanMethod
  pub inner_index_name : Text
  pub inner_residual_predicates : List Predicate
  pub outer_join_column : Text
  pub inner_join_column : Text

-- std::variant<TableAccessPlan, JoinPlan>
pub data AccessPath : Type 0 where
  single : TableAccessPlan → AccessPath
  joined : JoinPlan → AccessPath

pub record SelectPlan : Type 0 where
  pub select_star : Bool
  pub select_list : List ColumnRef
  pub access : AccessPath

-- Is a reference unqualified, or qualified with this name?
abbrev pub in_scope : Option Text → Text → Bool
in_scope none name = true
in_scope (some t) name = text_eq t name

unfoldable pub validate_predicate : TableInfo → Predicate → Attempt (Unit {0})
validate_predicate table pred = do
  check (in_scope pred.column.table_name table.name) SemanticError.wrong_qualifier
  col ← require_column table pred.column.column_name
  require_literal_matches_column col pred.value

unfoldable pub validate_predicates : TableInfo → List Predicate → Attempt (Unit {0})
validate_predicates table [] = returned tt
validate_predicates table (pred ∷ preds) = do
  validate_predicate table pred
  validate_predicates table preds

unfoldable pub first_on_column : List IndexInfo → Text → Option IndexInfo
first_on_column [] column_name = none
first_on_column (i ∷ is) column_name =
    if text_eq i.column_name column_name then some i else first_on_column is column_name

unfoldable pub find_index_on_column : Catalog → Text → Text → Option IndexInfo
find_index_on_column catalog table_name column_name =
    first_on_column (indexes_on_table catalog table_name) column_name

-- The index that a predicate of the WHERE clause can be answered from.
unfoldable pub usable_index : Catalog → Text → Predicate → Option IndexInfo
usable_index catalog table_name pred = elim pred.op [
  | Comparator.eq ↦ find_index_on_column catalog table_name pred.column.column_name
  | _ ↦ none
]

pub record Driver : Type 0 where
  pub position : ℕ
  pub index : IndexInfo
  pub key : ℤ

-- The loop that looks for the driving predicate, from position i.
unfoldable pub find_driver : Catalog → Text → List Predicate → ℕ → Option Driver
find_driver catalog table_name [] i = none
find_driver catalog table_name (pred ∷ preds) i = elim (usable_index catalog table_name pred) [
  | none ↦ find_driver catalog table_name preds (suc i)
  | some index ↦ some (record { position = i; index = index; key = pred.value.int_value })
]

abbrev pub is_driver : Option Driver → ℕ → Bool
is_driver none i = false
is_driver (some d) i = i == d.position

-- The loop that keeps every other predicate.
unfoldable pub residuals : Option Driver → List Predicate → ℕ → List Predicate
residuals driver [] i = []
residuals driver (pred ∷ preds) i =
    let rest = residuals driver preds (suc i) in if is_driver driver i then rest else pred ∷ rest

unfoldable pub access_plan : Catalog → Text → List Predicate → TableAccessPlan
access_plan catalog table_name preds = elim (find_driver catalog table_name preds 0) [
  | none ↦ record {
    table_name = table_name;
    method = seq_scan;
    index_name = [];
    index_key = pos 0;
    residual_predicates = residuals none preds 0;
  }
  | some d ↦ record {
    table_name = table_name;
    method = index_scan;
    index_name = d.index.name;
    index_key = d.key;
    residual_predicates = residuals (some d) preds 0;
  }
]

unfoldable pub plan_table_access : Catalog → Text → List Predicate → Attempt TableAccessPlan
plan_table_access catalog table_name preds = do
  table ← require (find_table catalog table_name) SemanticError.no_such_table
  validate_predicates table preds
  returned (access_plan catalog table_name preds)

pub data JoinSide : Type 0 where
  outer_side inner_side : JoinSide

abbrev pub side_table : JoinSide → TableInfo → TableInfo → TableInfo
side_table outer_side outer inner = outer
side_table inner_side outer inner = inner

unfoldable pub resolve_unqualified : Option ColumnDef → Option ColumnDef → Attempt JoinSide
resolve_unqualified (some a) (some b) = thrown SemanticError.ambiguous_column
resolve_unqualified (some a) none = returned outer_side
resolve_unqualified none (some b) = returned inner_side
resolve_unqualified none none = thrown SemanticError.no_such_column

unfoldable pub resolve_qualified : TableInfo → TableInfo → Text → Text → Attempt JoinSide
resolve_qualified outer inner t column_name =
    if text_eq t outer.name
    then require_column outer column_name >>= (λ c. returned outer_side)
    else if text_eq t inner.name
    then require_column inner column_name >>= (λ c. returned inner_side)
    else thrown SemanticError.wrong_qualifier

unfoldable pub resolve_column_side : TableInfo → TableInfo → ColumnRef → Attempt JoinSide
resolve_column_side outer inner col = elim col.table_name [
  | some t ↦ resolve_qualified outer inner t col.column_name
  | none ↦
      resolve_unqualified (find_column outer col.column_name) (find_column inner col.column_name)
]

abbrev pub put_side :
    JoinSide → Predicate → List Predicate × List Predicate → List Predicate × List Predicate
put_side outer_side pred (outers, inners) = (pred ∷ outers, inners)
put_side inner_side pred (outers, inners) = (outers, pred ∷ inners)

-- The loop that splits the WHERE clause between the two tables.
unfoldable pub split_predicates :
    TableInfo → TableInfo → List Predicate → Attempt (List Predicate × List Predicate)
split_predicates outer inner [] = returned ([], [])
split_predicates outer inner (pred ∷ preds) = do
  side ← resolve_column_side outer inner pred.column
  col ← require_column (side_table side outer inner) pred.column.column_name
  require_literal_matches_column col pred.value
  rest ← split_predicates outer inner preds
  returned (put_side side pred rest)

unfoldable pub resolve_list_single : TableInfo → List ColumnRef → Attempt (List ColumnRef)
resolve_list_single table [] = returned []
resolve_list_single table (col ∷ cols) = do
  check (in_scope col.table_name table.name) SemanticError.wrong_qualifier
  def ← require_column table col.column_name
  rest ← resolve_list_single table cols
  returned (record { table_name = some table.name; column_name = col.column_name } ∷ rest)

unfoldable pub resolve_list_joined :
    TableInfo → TableInfo → List ColumnRef → Attempt (List ColumnRef)
resolve_list_joined outer inner [] = returned []
resolve_list_joined outer inner (col ∷ cols) = do
  side ← resolve_column_side outer inner col
  rest ← resolve_list_joined outer inner cols
  returned (
      record { table_name = some (side_table side outer inner).name; column_name = col.column_name }
      ∷ rest)

abbrev pub same_type : ColumnType → ColumnType → Bool
same_type ColumnType.integer ColumnType.integer = true
same_type ColumnType.integer ColumnType.text = false
same_type ColumnType.text ColumnType.integer = false
same_type ColumnType.text ColumnType.text = true

-- The outer table's join column and the inner one's, in this order.
unfoldable pub join_columns : JoinSide → JoinSide → JoinClause → Attempt (Text × Text)
join_columns outer_side outer_side join = thrown SemanticError.join_on_one_table
join_columns outer_side inner_side join =
    returned (join.left_column.column_name, join.right_column.column_name)
join_columns inner_side outer_side join =
    returned (join.right_column.column_name, join.left_column.column_name)
join_columns inner_side inner_side join = thrown SemanticError.join_on_one_table

unfoldable pub inner_access : Option IndexInfo → ScanMethod × Text
inner_access none = (seq_scan, [])
inner_access (some i) = (index_scan, i.name)

abbrev pub distinct : TableInfo → TableInfo → Bool
distinct inner from_table = if text_eq inner.name from_table.name then false else true

-- The columns that the ON clause compares: the outer table's and the inner one's.
unfoldable pub resolve_join : TableInfo → TableInfo → JoinClause → Attempt (Text × Text)
resolve_join from_table inner join = do
  left_side ← resolve_column_side from_table inner join.left_column
  right_side ← resolve_column_side from_table inner join.right_column
  columns ← join_columns left_side right_side join
  outer_col ← require_column from_table columns.0
  inner_col ← require_column inner columns.1
  check (same_type outer_col.kind inner_col.kind) SemanticError.join_types_differ
  returned columns

unfoldable pub make_join_plan :
    Catalog → TableInfo → TableInfo → Text × Text → List Predicate → Attempt JoinPlan
make_join_plan catalog from_table inner columns preds = do
  sides ← split_predicates from_table inner preds
  outer ← plan_table_access catalog from_table.name sides.0
  returned (record {
    outer = outer;
    inner_table_name = inner.name;
    inner_method = (inner_access (find_index_on_column catalog inner.name columns.1)).0;
    inner_index_name = (inner_access (find_index_on_column catalog inner.name columns.1)).1;
    inner_residual_predicates = sides.1;
    outer_join_column = columns.0;
    inner_join_column = columns.1;
  })

unfoldable pub plan_join :
    Catalog → TableInfo → JoinClause → List Predicate → Attempt (TableInfo × JoinPlan)
plan_join catalog from_table join preds = do
  inner ← require (find_table catalog join.table_name) SemanticError.no_such_table
  check (distinct inner from_table) SemanticError.self_join
  columns ← resolve_join from_table inner join
  plan ← make_join_plan catalog from_table inner columns preds
  returned (inner, plan)

-- What follows the lookup of the FROM table, without a JOIN and with one.
unfoldable pub plan_select_from :
    Catalog → TableInfo → SelectStatement → Option JoinClause → Attempt SelectPlan
plan_select_from catalog from_table stmt none = do
  select_list ←
      if stmt.select_star then returned [] else resolve_list_single from_table stmt.select_list
  plan ← plan_table_access catalog stmt.from_table stmt.where_predicates
  returned
      (record { select_star = stmt.select_star; select_list = select_list; access = single plan })
plan_select_from catalog from_table stmt (some join) = do
  planned ← plan_join catalog from_table join stmt.where_predicates
  select_list ←
      if stmt.select_star
      then returned []
      else resolve_list_joined from_table planned.0 stmt.select_list
  returned (record {
    select_star = stmt.select_star;
    select_list = select_list;
    access = joined planned.1;
  })

unfoldable pub plan_select : Catalog → SelectStatement → Attempt SelectPlan
plan_select catalog stmt = do
  from_table ← require (find_table catalog stmt.from_table) SemanticError.no_such_table
  plan_select_from catalog from_table stmt stmt.join
