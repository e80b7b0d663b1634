-- ===== src/Sql/Planner/OnClause.antt =====
-- planner.cpp: the two columns that the ON clause of a join compares.
use mathlib.Core.Path.{subst}
use flintdb.Prelude.{◌≡◌, refl, true, Text, arith}
use flintdb.Sql.Ast.{ColumnDef, ColumnType, JoinClause}
use flintdb.Sql.Schema.{TableInfo, SemanticError, returned, thrown, check, require_column}
use flintdb.Sql.Planner.{
  JoinSide, outer_side, inner_side, resolve_column_side, same_type, join_columns, resolve_join,
}
use flintdb.Sql.Planner.Usable.{IsFirst, IsColumn, find_column-eq-some}
use flintdb.Sql.Planner.Sides.{Belongs, BelongsTo, resolve_column_side-BelongsTo}
use flintdb.Sql.Planner.Validity.{>>=-eq-returned, require-eq-returned, check-eq-returned}

-- The ON clause compares a column of the one table with a column of the other, in either order.
pub data ComparesColumns (from_table inner : TableInfo) (join : JoinClause)
    : Text → Text → Type 0 where
  from_left :
      Belongs from_table inner join.left_column
      → Belongs inner from_table join.right_column
      → ComparesColumns from_table inner join join.left_column.column_name
          join.right_column.column_name
  from_right :
      Belongs from_table inner join.right_column
      → Belongs inner from_table join.left_column
      → ComparesColumns from_table inner join join.right_column.column_name
          join.left_column.column_name

join_columns-ComparesColumns :
    (left_side right_side : JoinSide) (from_table inner : TableInfo) (join : JoinClause)
    (columns : Text × Text)
    → BelongsTo left_side from_table inner join.left_column
    → BelongsTo right_side from_table inner join.right_column
    → join_columns left_side right_side join ≡ returned columns
    → ComparesColumns from_table inner join columns.0 columns.1
unfolding join_columns
join_columns-ComparesColumns outer_side outer_side from_table inner join columns l r h =
    ground arith
join_columns-ComparesColumns outer_side inner_side from_table inner join columns l r h =
    subst
      (λ x. elim x [ returned c ↦ ComparesColumns from_table inner join c.0 c.1 | thrown e ↦ Unit ])
      h (from_left l r)
join_columns-ComparesColumns inner_side outer_side from_table inner join columns l r h =
    subst
      (λ x. elim x [ returned c ↦ ComparesColumns from_table inner join c.0 c.1 | thrown e ↦ Unit ])
      h (from_right r l)
join_columns-ComparesColumns inner_side inner_side from_table inner join columns l r h =
    ground arith

-- The tables have these columns, and the two are of one type.
pub record AreComparable (from_table inner : TableInfo) (outer_name inner_name : Text)
    : Type 0 where
  pub outer_column : ColumnDef
  pub inner_column : ColumnDef
  pub is_outer_column : IsFirst (IsColumn outer_name) outer_column from_table.columns
  pub is_inner_column : IsFirst (IsColumn inner_name) inner_column inner.columns
  pub same_kind : outer_column.kind ≡ inner_column.kind

same_type_sound : (a b : ColumnType) → same_type a b ≡ true → a ≡ b
same_type_sound ColumnType.integer ColumnType.integer h = refl
same_type_sound ColumnType.integer ColumnType.text h = ground arith
same_type_sound ColumnType.text ColumnType.integer h = ground arith
same_type_sound ColumnType.text ColumnType.text h = refl

pub resolve_join_lem :
    (from_table inner : TableInfo) (join : JoinClause) (columns : Text × Text)
    → resolve_join from_table inner join ≡ returned columns
    → ComparesColumns from_table inner join columns.0 columns.1
      × AreComparable from_table inner columns.0 columns.1
unfolding resolve_join require_column
resolve_join_lem from_table inner join columns h =
    let (left_side, lefts, h1) =
      >>=-eq-returned (resolve_column_side from_table inner join.left_column) _ columns h in
    let (right_side, rights, h2) =
      >>=-eq-returned (resolve_column_side from_table inner join.right_column) _ columns h1 in
    let (picked, is_picked, h3) =
      >>=-eq-returned (join_columns left_side right_side join) _ columns h2 in
    let (a, outers, h4) = >>=-eq-returned (require_column from_table picked.0) _ columns h3 in
    let (b, inners, h5) = >>=-eq-returned (require_column inner picked.1) _ columns h4 in
    let (u, same, h6) =
      >>=-eq-returned (check (same_type a.kind b.kind) SemanticError.join_types_differ) _ columns
        h5 in
    subst
      (λ r. elim r [
        | returned c ↦
            ComparesColumns from_table inner join c.0 c.1 × AreComparable from_table inner c.0 c.1
        | thrown e ↦ Unit
      ])
      h6
      (
        join_columns-ComparesColumns left_side right_side from_table inner join picked
            (resolve_column_side-BelongsTo from_table inner join.left_column left_side lefts)
            (resolve_column_side-BelongsTo from_table inner join.right_column right_side rights)
            is_picked,
        record {
          outer_column = a;
          inner_column = b;
          is_outer_column = find_column-eq-some _ _ a (require-eq-returned _ _ a outers);
          is_inner_column = find_column-eq-some _ _ b (require-eq-returned _ _ b inners);
          same_kind = same_type_sound a.kind b.kind (check-eq-returned _ _ u same);
        },
      )
