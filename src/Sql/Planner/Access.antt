-- ===== src/Sql/Planner/Access.antt =====
-- planner.cpp: a table's access path answers the WHERE clause, and when there is one.
use mathlib.Core.Path.{subst}
use flintdb.Prelude.{
  ◌≡◌, refl, ap, ap₂, sym, ◌∙◌, inl, inr, Bool, true, false, ◌&&◌, List, [], ◌∷◌, ◌++◌, Text,
  Option-cases, arith, All,
}
use flintdb.Prelude.Int.{ℤ, pos}
use flintdb.Sql.Ast.{Comparator, Predicate}
use flintdb.Sql.Schema.{
  IndexInfo, TableInfo, Catalog, SemanticError, Attempt, ◌>>◌, returned, thrown, find_table,
}
use flintdb.Sql.Planner.{
  seq_scan, index_scan, TableAccessPlan, find_driver, access_plan, plan_table_access,
}
use flintdb.Sql.Planner.Usable.{
  IsFirst, IsTable, IsIndexOn, IsUnanswerable, find_table-eq-some, find_table-eq-none,
}
use flintdb.Sql.Planner.Validity.{
  IsValidOn, IsFirstInvalid, ValidatesAll, all_accepted, one_refused,
  validate_predicates-ValidatesAll,
}
use flintdb.Sql.Planner.Driving.{
  Driven, residuals_without_driver, find_driver-eq-none, find_driver-Driven,
}

-- A WHERE clause is a conjunction.
unfoldable pub all_hold : (Predicate → Bool) → List Predicate → Bool
all_hold holds [] = true
all_hold holds (p ∷ ps) = holds p && all_hold holds ps

pub all_hold-append :
    (holds : Predicate → Bool) (ps qs : List Predicate)
    → all_hold holds (ps ++ qs) ≡ (all_hold holds ps && all_hold holds qs)
unfolding all_hold
all_hold-append holds [] qs = refl
all_hold-append holds (p ∷ ps) qs = ground (arith, all_hold-append holds ps qs)

-- What a plan says of the WHERE clause it was made for.
pub data IsPlanFor (catalog : Catalog) (table_name : Text) (preds : List Predicate)
    : TableAccessPlan → Type 0 where
  scans :
      All (IsUnanswerable catalog table_name) preds
      → IsPlanFor catalog table_name preds (record {
        table_name = table_name;
        method = seq_scan;
        index_name = [];
        index_key = pos 0;
        residual_predicates = preds;
      })
  probes :
      {index : IndexInfo} {key : ℤ} {rest : List Predicate}
      → Driven catalog table_name preds index key rest
      → IsPlanFor catalog table_name preds (record {
        table_name = table_name;
        method = index_scan;
        index_name = index.name;
        index_key = key;
        residual_predicates = rest;
      })

access_plan_lem :
    (c : Catalog) (t : Text) (preds : List Predicate) → IsPlanFor c t preds (access_plan c t preds)
unfolding access_plan
access_plan_lem c t preds = elim (Option-cases (find_driver c t preds 0)) [
  | inl e ↦
      rw (access_plan, e, residuals_without_driver preds 0)
        (scans (find_driver-eq-none c t preds 0 e))
  | inr (d, e) ↦ rw (access_plan, e) (probes (find_driver-Driven c t preds 0 d e))
]

-- What PlanTableAccess comes to: a plan, or the reason that there is none.
pub data Plans (catalog : Catalog) (table_name : Text) (preds : List Predicate)
    : Attempt TableAccessPlan → Type 0 where
  planned :
      {plan : TableAccessPlan} (table : TableInfo)
      → IsFirst (IsTable table_name) table catalog.tables
      → All (IsValidOn table) preds
      → IsPlanFor catalog table_name preds plan
      → Plans catalog table_name preds (returned plan)
  no_table :
      All (λ t. ¬ IsTable table_name t) catalog.tables
      → Plans catalog table_name preds (thrown SemanticError.no_such_table)
  not_valid :
      {why : SemanticError} (table : TableInfo)
      → IsFirst (IsTable table_name) table catalog.tables
      → IsFirstInvalid table preds why
      → Plans catalog table_name preds (thrown why)

-- What is done with a table that was found.
validated-Plans :
    (catalog : Catalog) (table_name : Text) (preds : List Predicate) (table : TableInfo)
    (valid : Attempt (Unit {0}))
    → IsFirst (IsTable table_name) table catalog.tables
    → ValidatesAll table preds valid
    → Plans catalog table_name preds (valid >> returned (access_plan catalog table_name preds))
validated-Plans catalog table_name preds table valid found (all_accepted all) =
    planned table found all (access_plan_lem catalog table_name preds)
validated-Plans catalog table_name preds table valid found (one_refused r) = not_valid table found r

-- PlanTableAccess looks up the first table of this name in the catalog, and checks the predicates on it
-- in their order: a predicate is valid if it is not qualified with another table's name, its column is
-- one of the table's, and its literal is of the column's type. It throws exactly where there is no such
-- table, or for the first predicate that is not valid, for the reason that comes first of these three.
-- Else it returns a plan. The plan probes an index exactly if some predicate is an equality on a column
-- that an index of the table is on: then the first such predicate gives the index, the first one on the
-- column, and the key, and the others, in their order, are the residual ones. Else it scans, and every
-- predicate is residual.
pub plan_table_access_lem :
    (catalog : Catalog) (table_name : Text) (preds : List Predicate)
    → Plans catalog table_name preds (plan_table_access catalog table_name preds)
unfolding plan_table_access
plan_table_access_lem catalog table_name preds =
    elim (Option-cases (find_table catalog table_name)) [
      | inl e ↦ rw (e, plan_table_access) (no_table (find_table-eq-none catalog table_name e))
      | inr (table, e) ↦
          rw (e, plan_table_access)
            (validated-Plans catalog table_name preds table _
              (find_table-eq-some catalog table_name table e)
              (validate_predicates-ValidatesAll table preds))
    ]

Plans-returned :
    {catalog : Catalog} {table_name : Text} {preds : List Predicate}
    {result : Attempt TableAccessPlan} (plan : TableAccessPlan)
    → Plans catalog table_name preds result
    → result ≡ returned plan
    → IsPlanFor catalog table_name preds plan
Plans-returned {catalog} {table_name} {preds} plan (planned table found valid made) h =
    subst (λ r. elim r [ returned p ↦ IsPlanFor catalog table_name preds p | thrown e ↦ Unit ]) h
      made
Plans-returned plan (no_table absent) h = ground (arith, h)
Plans-returned plan (not_valid table found invalid) h = ground (arith, h)

pub plan_table_access-IsPlanFor :
    (catalog : Catalog) (table_name : Text) (preds : List Predicate) (plan : TableAccessPlan)
    → plan_table_access catalog table_name preds ≡ returned plan
    → IsPlanFor catalog table_name preds plan
plan_table_access-IsPlanFor catalog table_name preds plan h =
    Plans-returned plan (plan_table_access_lem catalog table_name preds) h

-- A table access answers a WHERE clause: the probe, where there is one, and the residual predicates.
unfoldable pub access_holds : (Text → ℤ → Bool) → (Predicate → Bool) → TableAccessPlan → Bool
access_holds probe holds plan = elim plan.method [
  | seq_scan ↦ all_hold holds plan.residual_predicates
  | index_scan ↦ probe plan.index_name plan.index_key && all_hold holds plan.residual_predicates
]

and_swap : (a b c : Bool) → (a && (b && c)) ≡ (b && (a && c))
and_swap true b c = refl
and_swap false true c = refl
and_swap false false c = refl

-- The probe of an index that answers a predicate finds the row exactly when the predicate holds.
abbrev pub IsExact :
    (catalog : Catalog) (table_name : Text) (probe : Text → ℤ → Bool) (holds : Predicate → Bool)
    → Predicate
    → Type 0
IsExact catalog table_name probe holds p =
    (i : IndexInfo)
    → p.op ≡ Comparator.eq
    → IsFirst (IsIndexOn table_name p.column.column_name) i catalog.indexes
    → holds p ≡ probe i.name p.value.int_value

All-after :
    (P : Predicate → Type 0) (ps : List Predicate) (q : Predicate) (qs : List Predicate)
    → All P (ps ++ (q ∷ qs))
    → P q
All-after P [] q qs h = h.0
All-after P (p ∷ ps) q qs h = All-after P ps q qs h.1

Driven-all_hold :
    {catalog : Catalog} {table_name : Text} {preds : List Predicate} {index : IndexInfo} {key : ℤ}
    {rest : List Predicate} (probe : Text → ℤ → Bool) (holds : Predicate → Bool)
    → All (IsExact catalog table_name probe holds) preds
    → Driven catalog table_name preds index key rest
    → all_hold holds preds ≡ (probe index.name key && all_hold holds rest)
unfolding all_hold
Driven-all_hold {catalog} {table_name} {index = index} {key} probe holds exact r =
    let driven : IsExact catalog table_name probe holds r.driving =
      All-after (IsExact catalog table_name probe holds) r.before r.driving r.after
        (subst (All (IsExact catalog table_name probe holds)) r.is_split exact) in
    ap (all_hold holds) r.is_split
    ∙ all_hold-append holds r.before (r.driving ∷ r.after)
    ∙ and_swap (all_hold holds r.before) (holds r.driving) (all_hold holds r.after)
    ∙ ap₂ (λ b c. b && c)
        (driven index r.is_usable.is_equality r.is_usable.is_index
          ∙ ap (probe index.name) (sym r.is_key))
        (sym (all_hold-append holds r.before r.after) ∙ sym (ap (all_hold holds) r.is_rest))

pub IsPlanFor-access_holds :
    {catalog : Catalog} {table_name : Text} {preds : List Predicate} (plan : TableAccessPlan)
    (probe : Text → ℤ → Bool) (holds : Predicate → Bool)
    → All (IsExact catalog table_name probe holds) preds
    → IsPlanFor catalog table_name preds plan
    → access_holds probe holds plan ≡ all_hold holds preds
unfolding access_holds
IsPlanFor-access_holds plan probe holds exact (scans none_usable) = refl
IsPlanFor-access_holds plan probe holds exact (probes r) = sym (Driven-all_hold probe holds exact r)

-- Under any reading of the predicates on a row, if for every predicate of the WHERE clause that is an
-- equality on a column with an index of the table, the probe of the first such index with the
-- predicate's key finds the row exactly when the predicate holds, then a plan of PlanTableAccess finds
-- the row exactly when every predicate of the WHERE clause holds: leaving out the driving predicate
-- loses nothing.
pub plan_table_access-all_hold :
    (catalog : Catalog) (table_name : Text) (preds : List Predicate) (plan : TableAccessPlan)
    (probe : Text → ℤ → Bool) (holds : Predicate → Bool)
    → All (IsExact catalog table_name probe holds) preds
    → plan_table_access catalog table_name preds ≡ returned plan
    → access_holds probe holds plan ≡ all_hold holds preds
plan_table_access-all_hold catalog table_name preds plan probe holds exact h =
    IsPlanFor-access_holds plan probe holds exact
      (plan_table_access-IsPlanFor catalog table_name preds plan h)
