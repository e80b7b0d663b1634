-- ===== src/Sql/Planner/Join.antt =====
-- planner.cpp: the plan of a join.
use mathlib.Core.Path.{subst}
use flintdb.Prelude.{
  ◌≡◌, refl, ap, sym, ◌∙◌, Bool, true, ◌&&◌, some, List, [], Text, text_eq, text_eq_self,
  Option-cases, inl, inr, arith, All-imp, if◌then◌else◌,
}
use flintdb.Prelude.Int.{ℤ}
use flintdb.Sql.Ast.{Predicate, JoinClause, SelectStatement}
use flintdb.Sql.Schema.{
  IndexInfo, TableInfo, Catalog, SemanticError, returned, thrown, require, check, find_table,
}
use flintdb.Sql.Planner.{
  split_predicates, distinct, resolve_join, make_join_plan, JoinPlan, single, joined, SelectPlan,
  plan_table_access, ScanMethod, seq_scan, index_scan, inner_access, find_index_on_column,
  plan_join, plan_select, plan_select_from, resolve_list_joined,
}
use flintdb.Sql.Planner.Usable.{
  IsFirst, IsTable, IsIndexOn, HasNoIndex, find_table-eq-some, find_index_on_column-eq-some,
  find_index_on_column-eq-none,
}
use flintdb.Sql.Planner.Validity.{>>=-eq-returned, require-eq-returned, check-eq-returned}
use flintdb.Sql.Planner.Access.{
  all_hold, access_holds, IsExact, IsPlanFor, IsPlanFor-access_holds, plan_table_access-IsPlanFor,
}
use flintdb.Sql.Planner.Division.{IsOn, Divided, split_predicates-Divided}
use flintdb.Sql.Planner.OnClause.{ComparesColumns, AreComparable, resolve_join_lem}

-- The access to the inner table: by the first index on its join column, or by a scan where none is.
pub data IsInnerAccess (catalog : Catalog) (inner : TableInfo) (column_name : Text)
    : ScanMethod → Text → Type 0 where
  by_index :
      (i : IndexInfo)
      → IsFirst (IsIndexOn inner.name column_name) i catalog.indexes
      → IsInnerAccess catalog inner column_name index_scan i.name
  by_scan :
      HasNoIndex catalog inner.name column_name
      → IsInnerAccess catalog inner column_name seq_scan []

-- How the plan answers the WHERE clause.
pub record Answers (catalog : Catalog) (from_table inner : TableInfo) (preds : List Predicate)
    (plan : JoinPlan) : Type 0 where
  pub outer_predicates : List Predicate
  pub is_divided : Divided from_table inner preds outer_predicates plan.inner_residual_predicates
  pub is_outer : IsPlanFor catalog from_table.name outer_predicates plan.outer
  pub is_inner_name : plan.inner_table_name ≡ inner.name
  pub inner_access :
      IsInnerAccess catalog inner plan.inner_join_column plan.inner_method plan.inner_index_name

-- What plan_join checks and makes.
pub record IsJoinFor (catalog : Catalog) (from_table : TableInfo) (join : JoinClause)
    (preds : List Predicate) (inner : TableInfo) (plan : JoinPlan) : Type 0 where
  pub is_inner : IsFirst (IsTable join.table_name) inner catalog.tables
  pub is_distinct : ¬ (inner.name ≡ from_table.name)
  pub on_clause :
      ComparesColumns from_table inner join plan.outer_join_column plan.inner_join_column
  pub compares : AreComparable from_table inner plan.outer_join_column plan.inner_join_column
  pub answers : Answers catalog from_table inner preds plan

distinct_lem :
    (inner from_table : TableInfo)
    → distinct inner from_table ≡ true
    → ¬ (inner.name ≡ from_table.name)
distinct_lem inner from_table h same =
    ground (arith, sym (text_eq_self inner.name) ∙ ap (text_eq inner.name) same)

inner_access-IsInnerAccess :
    (catalog : Catalog) (inner : TableInfo) (column_name : Text)
    → IsInnerAccess catalog inner column_name
        (inner_access (find_index_on_column catalog inner.name column_name)).0
        (inner_access (find_index_on_column catalog inner.name column_name)).1
unfolding inner_access
inner_access-IsInnerAccess catalog inner column_name =
    elim (Option-cases (find_index_on_column catalog inner.name column_name)) [
      | inl e ↦
          rw (e, inner_access)
            (by_scan (find_index_on_column-eq-none catalog inner.name column_name e))
      | inr (i, e) ↦
          rw (e, inner_access)
            (by_index i (find_index_on_column-eq-some catalog inner.name column_name i e))
    ]

-- What a made plan keeps of the columns it was given.
abbrev Made : Catalog → TableInfo → TableInfo → Text × Text → List Predicate → JoinPlan → Type 0
Made catalog from_table inner columns preds plan =
    Answers catalog from_table inner preds plan
    × (plan.outer_join_column ≡ columns.0)
    × (plan.inner_join_column ≡ columns.1)

make_join_plan-Made :
    (catalog : Catalog) (from_table inner : TableInfo) (columns : Text × Text)
    (preds : List Predicate) (plan : JoinPlan)
    → make_join_plan catalog from_table inner columns preds ≡ returned plan
    → Made catalog from_table inner columns preds plan
unfolding make_join_plan
make_join_plan-Made catalog from_table inner columns preds plan h =
    let (sides, split, h1) = >>=-eq-returned (split_predicates from_table inner preds) _ plan h in
    let (outer, access, h2) =
      >>=-eq-returned (plan_table_access catalog from_table.name sides.0) _ plan h1 in
    subst
      (λ r. elim r [ returned j ↦ Made catalog from_table inner columns preds j | thrown e ↦ Unit ])
      h2
      (
        record {
          outer_predicates = sides.0;
          is_divided = split_predicates-Divided from_table inner preds sides split;
          is_outer = plan_table_access-IsPlanFor catalog from_table.name sides.0 outer access;
          is_inner_name = refl;
          inner_access = inner_access-IsInnerAccess catalog inner columns.1;
        },
        refl,
        refl,
      )

plan_join_lem :
    (catalog : Catalog) (from_table : TableInfo) (join : JoinClause) (preds : List Predicate)
    (planned : TableInfo × JoinPlan)
    → plan_join catalog from_table join preds ≡ returned planned
    → IsJoinFor catalog from_table join preds planned.0 planned.1
unfolding plan_join
plan_join_lem catalog from_table join preds planned h =
    let (inner, found, h1) =
      >>=-eq-returned (require (find_table catalog join.table_name) SemanticError.no_such_table) _
        planned h in
    let (u, other, h2) =
      >>=-eq-returned (check (distinct inner from_table) SemanticError.self_join) _ planned h1 in
    let (columns, resolved, h3) =
      >>=-eq-returned (resolve_join from_table inner join) _ planned h2 in
    let (plan, made, h4) =
      >>=-eq-returned (make_join_plan catalog from_table inner columns preds) _ planned h3 in
    let (on_clause, comparable) = resolve_join_lem from_table inner join columns resolved in
    let (answers, outers, inners) =
      make_join_plan-Made catalog from_table inner columns preds plan made in
    subst
      (λ r. elim r [
        | returned s ↦ IsJoinFor catalog from_table join preds s.0 s.1
        | thrown e ↦ Unit
      ])
      h4
      (record {
        is_inner =
            find_table-eq-some catalog join.table_name inner (require-eq-returned _ _ inner found);
        is_distinct = distinct_lem inner from_table (check-eq-returned _ _ u other);
        on_clause =
            subst (λ c. ComparesColumns from_table inner join c plan.inner_join_column) (sym outers)
              (subst (ComparesColumns from_table inner join columns.0) (sym inners) on_clause);
        compares =
            subst (λ c. AreComparable from_table inner c plan.inner_join_column) (sym outers)
              (subst (AreComparable from_table inner columns.0) (sym inners) comparable);
        answers = answers;
      })

IsJoinFor-all_hold :
    {catalog : Catalog} {from_table inner : TableInfo} {join : JoinClause} {preds : List Predicate}
    {j : JoinPlan} (probe : Text → ℤ → Bool) (holds : Predicate → Bool)
    → ((p : Predicate) → IsOn from_table inner p → IsExact catalog from_table.name probe holds p)
    → IsJoinFor catalog from_table join preds inner j
    → (access_holds probe holds j.outer && all_hold holds j.inner_residual_predicates)
      ≡ all_hold holds preds
IsJoinFor-all_hold {catalog} {from_table} {j = j} probe holds exact r =
    ap (λ b. b && all_hold holds j.inner_residual_predicates)
      (IsPlanFor-access_holds j.outer probe holds
        (All-imp r.answers.outer_predicates exact r.answers.is_divided.on_outer) r.answers.is_outer)
    ∙ sym (r.answers.is_divided.is_conjunction holds)

plan_select_from-joined :
    (catalog : Catalog) (from_table : TableInfo) (stmt : SelectStatement) (join : JoinClause)
    (plan : SelectPlan) (j : JoinPlan)
    → plan_select_from catalog from_table stmt (some join) ≡ returned plan
    → plan.access ≡ joined j
    → (inner : TableInfo) × IsJoinFor catalog from_table join stmt.where_predicates inner j
unfolding plan_select_from
plan_select_from-joined catalog from_table stmt join plan j h is_joined =
    let (planned, made, h1) =
      >>=-eq-returned (plan_join catalog from_table join stmt.where_predicates) _ plan h in
    let (select_list, resolved, h2) =
      >>=-eq-returned
        (if stmt.select_star
          then returned []
          else resolve_list_joined from_table planned.0 stmt.select_list)
        _ plan h1 in
    let same : joined planned.1 ≡ joined j =
      subst (λ r. elim r [ returned s ↦ s.access ≡ joined j | thrown e ↦ Unit ]) (sym h2)
        is_joined in
    (
      planned.0,
      subst
          (λ a. elim a [
            | joined k ↦ IsJoinFor catalog from_table join stmt.where_predicates planned.0 k
            | single p ↦ Unit
          ])
          same (plan_join_lem catalog from_table join stmt.where_predicates planned made),
    )

-- A join plan of PlanSelect joins the FROM table with the table of the JOIN clause, which is another
-- one, on the two columns of the ON clause: the outer column is the one that belongs to the FROM table,
-- the inner one belongs to the joined table, and the two are of one type. The inner table is reached by
-- the first index on its join column, or scanned where none is. The WHERE clause is divided: each
-- predicate goes to the table that its column belongs to, and those of the FROM table decide its access
-- as they do without a join. Under any reading of the predicates on a pair of rows, if for every
-- equality on a column of the FROM table with an index the probe of the first such index finds the row
-- exactly when the equality holds, then the access to the FROM table and the inner table's residual
-- predicates together hold exactly when every predicate of the WHERE clause does.
pub plan_select-joined :
    (catalog : Catalog) (stmt : SelectStatement) (join : JoinClause) (plan : SelectPlan)
    (j : JoinPlan) (probe : Text → ℤ → Bool) (holds : Predicate → Bool)
    → ((from_table inner : TableInfo) (p : Predicate)
        → IsFirst (IsTable stmt.from_table) from_table catalog.tables
        → IsFirst (IsTable join.table_name) inner catalog.tables
        → IsOn from_table inner p
        → IsExact catalog from_table.name probe holds p)
    → stmt.join ≡ some join
    → plan_select catalog stmt ≡ returned plan
    → plan.access ≡ joined j
    → (from_table : TableInfo) × (inner : TableInfo) × IsFirst
        (IsTable stmt.from_table)
        from_table
        catalog.tables
      × IsJoinFor catalog from_table join stmt.where_predicates inner j
      × ((access_holds probe holds j.outer && all_hold holds j.inner_residual_predicates)
          ≡ all_hold holds stmt.where_predicates)
unfolding plan_select
plan_select-joined catalog stmt join plan j probe holds exact is_join h is_joined =
    let (from_table, found, h1) =
      >>=-eq-returned (require (find_table catalog stmt.from_table) SemanticError.no_such_table) _
        plan h in
    let is_from =
      find_table-eq-some catalog stmt.from_table from_table
        (require-eq-returned _ _ from_table found) in
    let (inner, made) =
      plan_select_from-joined catalog from_table stmt join plan j
        (sym (ap (plan_select_from catalog from_table stmt) is_join) ∙ h1) is_joined in
    (
      from_table,
      inner,
      is_from,
      made,
      IsJoinFor-all_hold probe holds (λ p. exact from_table inner p is_from made.is_inner) made,
    )
