-- ===== src/Tests/Sql.antt =====
-- A small catalog with plans over it, as in tests/test_planner.cpp, and a row of each column type.
use flintdb.Prelude.{
  ℕ, ◌≡◌, refl, ap, sym, ◌∙◌, inl, inr, Option, if◌then◌else◌, Bool, true, false, ◌&&◌, none, some,
  List, [], ◌∷◌, Text, arith, text_eq,
}
use flintdb.Prelude.Int.{ℤ, pos, negsuc, pattern64, value64, int_eq, int_lt}
use flintdb.Bytes.{read_at, read_bytes, to_bytes, from_bytes}
use flintdb.Sql.Ast.{
  ColumnType, ColumnDef, ColumnRef, Comparator, Predicate, JoinClause, SelectStatement,
}
use flintdb.Sql.Schema.{
  IndexInfo, TableInfo, Catalog, find_in_columns, find_column, find_in_tables, find_table,
  select_indexes, indexes_on_table, returned, require_column, require_literal_matches_column,
}
use flintdb.Sql.RowCodec.{
  encode_value, encode_row, read_int64, read_uint32, decode_text, decode_value, decode_columns,
  decode_row, int_literal, string_literal,
}
use flintdb.Sql.RowCodec.RoundTrip.{int_suits, text_suits, decode_row-encode_row}
use flintdb.Sql.Planner.{
  seq_scan, index_scan, TableAccessPlan, JoinPlan, SelectPlan, joined, validate_predicate,
  validate_predicates, first_on_column, find_index_on_column, usable_index, find_driver, residuals,
  access_plan, plan_table_access, resolve_unqualified, resolve_qualified, resolve_column_side,
  split_predicates, resolve_list_single, resolve_list_joined, join_columns, resolve_join,
  make_join_plan, inner_access, plan_join, plan_select_from, plan_select,
}
use flintdb.Sql.Planner.Usable.{IsFirst, IsTable, IsIndexOn}
use flintdb.Sql.Planner.Access.{
  Plans, IsExact, access_holds, all_hold, plan_table_access_lem, plan_table_access-all_hold,
}
use flintdb.Sql.Planner.Sides.{Belongs, qualified, unqualified}
use flintdb.Sql.Planner.Division.{IsOn}
use flintdb.Sql.Planner.Join.{IsJoinFor, plan_select-joined}

program : Unit {0}
unfolding text_eq pattern64 value64 read_at read_bytes to_bytes from_bytes find_in_columns
    find_column find_in_tables find_table select_indexes indexes_on_table require_column
    require_literal_matches_column encode_value encode_row read_int64 read_uint32 decode_text
    decode_value decode_columns decode_row validate_predicate validate_predicates first_on_column
    find_index_on_column usable_index find_driver residuals access_plan plan_table_access
    resolve_unqualified resolve_qualified resolve_column_side split_predicates resolve_list_single
    resolve_list_joined join_columns resolve_join make_join_plan inner_access plan_join
    plan_select_from plan_select
program = tt

-- The names `id` and `name` are written 1 and 2, the tables 10 and 20.
abbrev id_column : ColumnDef
id_column = record { name = 1 ∷ []; kind = ColumnType.integer }

abbrev name_column : ColumnDef
name_column = record { name = 2 ∷ []; kind = ColumnType.text }

abbrev two_columns : List ColumnDef
two_columns = id_column ∷ name_column ∷ []

abbrev users : TableInfo
users = record {
  name = 10 ∷ [];
  columns = two_columns;
  primary_key_column = some (1 ∷ []);
  heap_object_id = 1;
}

abbrev orders : TableInfo
orders = record {
  name = 20 ∷ [];
  columns = two_columns;
  primary_key_column = none;
  heap_object_id = 3;
}

abbrev users_key : IndexInfo
users_key = record {
  name = 11 ∷ [];
  table_name = 10 ∷ [];
  column_name = 1 ∷ [];
  object_id = 2;
  is_primary_key = true;
}

abbrev shop : Catalog
shop = record { tables = users ∷ orders ∷ []; indexes = users_key ∷ [] }

abbrev of_table : ℕ → ℕ → ColumnRef
of_table t c = record { table_name = some (t ∷ []); column_name = c ∷ [] }

-- users.name = '!' AND users.id = 7
abbrev name_is : Predicate
name_is = record { column = of_table 10 2; op = Comparator.eq; value = string_literal (33 ∷ []) }

abbrev id_is : Predicate
id_is = record { column = of_table 10 1; op = Comparator.eq; value = int_literal (pos 7) }

-- orders.id < 3
abbrev order_below : Predicate
order_below = record { column = of_table 20 1; op = Comparator.lt; value = int_literal (pos 3) }

abbrev by_key : TableAccessPlan
by_key = record {
  table_name = 10 ∷ [];
  method = index_scan;
  index_name = 11 ∷ [];
  index_key = pos 7;
  residual_predicates = name_is ∷ [];
}

planned : plan_table_access shop (10 ∷ []) (name_is ∷ id_is ∷ []) ≡ returned by_key
unfolding program
planned = refl

-- The row (7, '!') of users with the row (2, '!') of orders: a predicate on a column named `id` compares
-- the number of the row of its table, and one on `name` the text, which is the same in both.
abbrev compares : Comparator → ℤ → ℤ → Bool
compares op x y = elim op [ Comparator.eq ↦ int_eq y x | Comparator.lt ↦ int_lt x y | _ ↦ false ]

abbrev number_of : Option Text → ℤ
number_of none = pos 7
number_of (some t) = if text_eq t (10 ∷ []) then pos 7 else pos 2

abbrev holds_of : Predicate → Bool
holds_of p =
    if text_eq p.column.column_name (1 ∷ [])
    then compares p.op (number_of p.column.table_name) p.value.int_value
    else text_eq p.value.string_value (33 ∷ [])

-- The index on users.id finds this row for 7 alone.
abbrev probe_of : Text → ℤ → Bool
probe_of name key = text_eq name (11 ∷ []) && int_eq key (pos 7)

-- The one index of the catalog is on users.id.
only_index :
    (t c : Text) (i : IndexInfo)
    → IsFirst (IsIndexOn t c) i shop.indexes
    → (t ≡ 10 ∷ []) × (c ≡ 1 ∷ []) × (i ≡ users_key)
only_index t c i (inl (same, (on_table, on_column))) = (sym on_table, sym on_column, sym same)
only_index t c i (inr (other, rest)) = absurd rest

IsExact-on :
    (t : Text) (p : Predicate)
    → number_of p.column.table_name ≡ pos 7
    → IsExact shop t probe_of holds_of p
unfolding program
IsExact-on t p of_users i is_equality is_index =
    let (on_table, on_column, is_key) = only_index t p.column.column_name i is_index in
    rw (on_column, is_key, is_equality, of_users) refl

of_users_table : number_of (some (10 ∷ [])) ≡ pos 7
unfolding program
of_users_table = refl

plan_table_access_lem_example : Plans shop (10 ∷ []) (name_is ∷ id_is ∷ []) (returned by_key)
unfolding program
plan_table_access_lem_example = plan_table_access_lem shop (10 ∷ []) (name_is ∷ id_is ∷ [])

plan_table_access-all_hold_example :
    access_holds probe_of holds_of by_key ≡ all_hold holds_of (name_is ∷ id_is ∷ [])
plan_table_access-all_hold_example =
    plan_table_access-all_hold shop (10 ∷ []) (name_is ∷ id_is ∷ []) by_key probe_of holds_of
      (IsExact-on (10 ∷ []) name_is of_users_table, (IsExact-on (10 ∷ []) id_is of_users_table, tt))
      planned

abbrev on_id : JoinClause
on_id = record { table_name = 20 ∷ []; left_column = of_table 20 1; right_column = of_table 10 1 }

abbrev join_statement : SelectStatement
join_statement = record {
  select_star = true;
  select_list = [];
  from_table = 10 ∷ [];
  join = some on_id;
  where_predicates = order_below ∷ id_is ∷ [];
}

abbrev join_plan : JoinPlan
join_plan = record {
  outer = record {
    table_name = 10 ∷ [];
    method = index_scan;
    index_name = 11 ∷ [];
    index_key = pos 7;
    residual_predicates = [];
  };
  inner_table_name = 20 ∷ [];
  inner_method = seq_scan;
  inner_index_name = [];
  inner_residual_predicates = order_below ∷ [];
  outer_join_column = 1 ∷ [];
  inner_join_column = 1 ∷ [];
}

abbrev select_plan : SelectPlan
select_plan = record { select_star = true; select_list = []; access = joined join_plan }

join_planned : plan_select shop join_statement ≡ returned select_plan
unfolding program
join_planned = refl

named :
    (name : Text) (t : TableInfo) (ts : List TableInfo)
    → IsFirst (IsTable name) t ts
    → t.name ≡ name
named name t [] h = elim h [ ]
named name t (x ∷ xs) (inl (same, e)) = ap (λ y. y.name) (sym same) ∙ e
named name t (x ∷ xs) (inr (other, rest)) = named name t xs rest

-- A predicate on users is about the number 7.
on_users :
    (from_table inner : TableInfo) (ref : ColumnRef)
    → IsFirst (IsTable (10 ∷ [])) from_table shop.tables
    → Belongs from_table inner ref
    → number_of ref.table_name ≡ pos 7
on_users from_table inner ref is_from (qualified c e found) =
    ap number_of (e ∙ ap (λ x. some x) (named (10 ∷ []) from_table shop.tables is_from))
    ∙ of_users_table
on_users from_table inner ref is_from (unqualified c e found other) = ap number_of e

IsExact-for_join :
    (from_table inner : TableInfo) (p : Predicate)
    → IsFirst (IsTable (10 ∷ [])) from_table shop.tables
    → IsFirst (IsTable (20 ∷ [])) inner shop.tables
    → IsOn from_table inner p
    → IsExact shop from_table.name probe_of holds_of p
IsExact-for_join from_table inner p is_from is_inner on =
    IsExact-on from_table.name p (on_users from_table inner p.column is_from on.belongs)

plan_select-joined_example :
    (from_table : TableInfo) × (inner : TableInfo) × IsFirst
      (IsTable (10 ∷ []))
      from_table
      shop.tables
    × IsJoinFor shop from_table on_id (order_below ∷ id_is ∷ []) inner join_plan
    × ((access_holds probe_of holds_of join_plan.outer && all_hold holds_of (order_below ∷ []))
        ≡ all_hold holds_of (order_below ∷ id_is ∷ []))
plan_select-joined_example =
    plan_select-joined shop join_statement on_id select_plan join_plan probe_of holds_of
      IsExact-for_join refl join_planned refl

decode_row-encode_row_example :
    (bytes : Text) × (encode_row two_columns
        (int_literal (negsuc 4) ∷ string_literal (104 ∷ 105 ∷ []) ∷ [])
      ≡ some bytes)
    × (decode_row two_columns bytes
        ≡ some (int_literal (negsuc 4) ∷ string_literal (104 ∷ 105 ∷ []) ∷ []))
decode_row-encode_row_example =
    decode_row-encode_row two_columns
      (int_literal (negsuc 4) ∷ string_literal (104 ∷ 105 ∷ []) ∷ [])
      (int_suits (negsuc 4) (omega arith), (text_suits (104 ∷ 105 ∷ []) (omega arith), tt))
