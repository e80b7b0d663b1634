-- ===== src/Sql/Planner/Usable.antt =====
-- planner.cpp, sql_semantics.cpp and catalog.cpp: what the lookups and checks of the planner decide, said
-- of the names in the catalog.
use mathlib.Core.Path.{subst}
use flintdb.Prelude.{
  ◌≡◌, ◌⊎◌, refl, ap, sym, ◌∙◌, inl, inr, true, false, Option, none, some, List, [], ◌∷◌, Text,
  text_eq, text_eq_sound, text_eq_self, Bool-cases, arith, All,
}
use flintdb.Sql.Ast.{ColumnType, ColumnDef, LiteralKind, Comparator, Predicate}
use flintdb.Sql.Schema.{
  IndexInfo, TableInfo, Catalog, find_in_columns, find_column, find_in_tables, find_table,
  select_indexes, indexes_on_table, kinds_match,
}
use flintdb.Sql.Planner.{first_on_column, find_index_on_column, usable_index}

-- x is the first in the list with the property.
abbrev pub IsFirst : {A : Type 0} → (A → Type 0) → A → List A → Type 0
IsFirst P x [] = ⊥
IsFirst P x (y ∷ ys) = ((y ≡ x) × P y) ⊎ ((¬ P y) × IsFirst P x ys)

abbrev pub IsColumn : Text → ColumnDef → Type 0
IsColumn name c = c.name ≡ name

abbrev pub IsTable : Text → TableInfo → Type 0
IsTable name t = t.name ≡ name

abbrev pub IsIndexOn : Text → Text → IndexInfo → Type 0
IsIndexOn table_name column_name i = (i.table_name ≡ table_name) × (i.column_name ≡ column_name)

pub data LiteralFits : ColumnType → LiteralKind → Type 0 where
  integers : LiteralFits ColumnType.integer LiteralKind.integer
  strings : LiteralFits ColumnType.text LiteralKind.string

-- The table has the predicate's column, and the literal is of its type.
pub record Suits (table : TableInfo) (p : Predicate) : Type 0 where
  pub column : ColumnDef
  pub is_column : IsFirst (IsColumn p.column.column_name) column table.columns
  pub fits : LiteralFits column.kind p.value.kind

-- An equality on a column of the table that has an index, the catalog's first.
pub record IsAnswerable (catalog : Catalog) (table_name : Text) (p : Predicate) (i : IndexInfo)
    : Type 0 where
  pub is_equality : p.op ≡ Comparator.eq
  pub is_index : IsFirst (IsIndexOn table_name p.column.column_name) i catalog.indexes

-- No index of the catalog is on the column.
abbrev pub HasNoIndex : Catalog → Text → Text → Type 0
HasNoIndex catalog table_name column_name =
    All (λ i. ¬ IsIndexOn table_name column_name i) catalog.indexes

-- Not an equality, or on a column that has no index.
abbrev pub IsUnanswerable : Catalog → Text → Predicate → Type 0
IsUnanswerable catalog table_name p =
    (¬ (p.op ≡ Comparator.eq)) ⊎ HasNoIndex catalog table_name p.column.column_name

pub text_neq : (a b : Text) → text_eq a b ≡ false → ¬ (a ≡ b)
text_neq a b h e = ground (arith, sym (text_eq_self a) ∙ ap (text_eq a) e ∙ h)

pub kinds_match-LiteralFits :
    (kind : ColumnType) (k : LiteralKind) → kinds_match kind k ≡ true → LiteralFits kind k
kinds_match-LiteralFits ColumnType.integer LiteralKind.integer h = integers
kinds_match-LiteralFits ColumnType.integer LiteralKind.string h = ground arith
kinds_match-LiteralFits ColumnType.text LiteralKind.integer h = ground arith
kinds_match-LiteralFits ColumnType.text LiteralKind.string h = strings

fits-kinds_match :
    {kind : ColumnType} {k : LiteralKind} → LiteralFits kind k → kinds_match kind k ≡ true
fits-kinds_match integers = refl
fits-kinds_match strings = refl

pub mismatch-LiteralFits :
    (kind : ColumnType) (k : LiteralKind) → kinds_match kind k ≡ false → ¬ LiteralFits kind k
mismatch-LiteralFits kind k h fits = ground (arith, sym (fits-kinds_match fits) ∙ h)

-- What a search by name that answers o says of the list.
abbrev Found : {A : Type 0} → (A → Type 0) → List A → Option A → Type 0
Found P xs none = All (λ x. ¬ P x) xs
Found P xs (some x) = IsFirst P x xs

found_here : {A : Type 0} (P : A → Type 0) (x : A) (xs : List A) → P x → Found P (x ∷ xs) (some x)
found_here P x xs p = inl (refl, p)

found_later :
    {A : Type 0} (P : A → Type 0) (x : A) (xs : List A) (o : Option A)
    → (¬ P x)
    → Found P xs o
    → Found P (x ∷ xs) o
found_later P x xs none other rest = (other, rest)
found_later P x xs (some y) other rest = inr (other, rest)

find_in_columns-Found :
    (cs : List ColumnDef) (name : Text) → Found (IsColumn name) cs (find_in_columns cs name)
unfolding find_in_columns
find_in_columns-Found [] name = tt
find_in_columns-Found (c ∷ cs) name = elim (Bool-cases (text_eq c.name name)) [
  | inl e ↦ rw (e, find_in_columns) (found_here (IsColumn name) c cs (text_eq_sound c.name name e))
  | inr e ↦
      rw (e, find_in_columns)
        (found_later (IsColumn name) c cs _ (text_neq c.name name e)
          (find_in_columns-Found cs name))
]

pub find_column-Found :
    (table : TableInfo) (name : Text) → Found (IsColumn name) table.columns (find_column table name)
unfolding find_column
find_column-Found table name = find_in_columns-Found table.columns name

find_in_tables-Found :
    (ts : List TableInfo) (name : Text) → Found (IsTable name) ts (find_in_tables ts name)
unfolding find_in_tables
find_in_tables-Found [] name = tt
find_in_tables-Found (t ∷ ts) name = elim (Bool-cases (text_eq t.name name)) [
  | inl e ↦ rw (e, find_in_tables) (found_here (IsTable name) t ts (text_eq_sound t.name name e))
  | inr e ↦
      rw (e, find_in_tables)
        (found_later (IsTable name) t ts _ (text_neq t.name name e) (find_in_tables-Found ts name))
]

-- A column that is found is the first of its name, and one that is not found is not there.
pub find_column-eq-some :
    (table : TableInfo) (name : Text) (c : ColumnDef)
    → find_column table name ≡ some c
    → IsFirst (IsColumn name) c table.columns
find_column-eq-some table name c e =
    subst (Found (IsColumn name) table.columns) e (find_column-Found table name)

pub find_column-eq-none :
    (table : TableInfo) (name : Text)
    → find_column table name ≡ none
    → All (λ c. ¬ IsColumn name c) table.columns
find_column-eq-none table name e =
    subst (Found (IsColumn name) table.columns) e (find_column-Found table name)

pub find_table-eq-none :
    (catalog : Catalog) (name : Text)
    → find_table catalog name ≡ none
    → All (λ t. ¬ IsTable name t) catalog.tables
unfolding find_table
find_table-eq-none catalog name e =
    subst (Found (IsTable name) catalog.tables) e (find_in_tables-Found catalog.tables name)

pub find_table-eq-some :
    (catalog : Catalog) (name : Text) (t : TableInfo)
    → find_table catalog name ≡ some t
    → IsFirst (IsTable name) t catalog.tables
unfolding find_table
find_table-eq-some catalog name t e =
    subst (Found (IsTable name) catalog.tables) e (find_in_tables-Found catalog.tables name)

select_indexes-Found :
    (is : List IndexInfo) (t name : Text)
    → Found (IsIndexOn t name) is (first_on_column (select_indexes is t) name)
unfolding select_indexes first_on_column
select_indexes-Found [] t name = tt
select_indexes-Found (i ∷ is) t name =
    let rest = select_indexes-Found is t name in
    elim (Bool-cases (text_eq i.table_name t)) [
      | inr e ↦
          rw (e, select_indexes)
            (found_later (IsIndexOn t name) i is _ (λ h. text_neq i.table_name t e h.0) rest)
      | inl e ↦ elim (Bool-cases (text_eq i.column_name name)) [
        | inl f ↦
            rw (e, f, select_indexes, first_on_column)
              (found_here (IsIndexOn t name) i is
                (text_eq_sound i.table_name t e, text_eq_sound i.column_name name f))
        | inr f ↦
            rw (e, f, select_indexes, first_on_column)
              (found_later (IsIndexOn t name) i is _ (λ h. text_neq i.column_name name f h.1) rest)
      ]
    ]

find_index_on_column-Found :
    (catalog : Catalog) (t name : Text)
    → Found (IsIndexOn t name) catalog.indexes (find_index_on_column catalog t name)
unfolding find_index_on_column indexes_on_table
find_index_on_column-Found catalog t name = select_indexes-Found catalog.indexes t name

pub find_index_on_column-eq-some :
    (catalog : Catalog) (t name : Text) (i : IndexInfo)
    → find_index_on_column catalog t name ≡ some i
    → IsFirst (IsIndexOn t name) i catalog.indexes
find_index_on_column-eq-some catalog t name i e =
    subst (Found (IsIndexOn t name) catalog.indexes) e (find_index_on_column-Found catalog t name)

pub find_index_on_column-eq-none :
    (catalog : Catalog) (t name : Text)
    → find_index_on_column catalog t name ≡ none
    → HasNoIndex catalog t name
find_index_on_column-eq-none catalog t name e =
    subst (Found (IsIndexOn t name) catalog.indexes) e (find_index_on_column-Found catalog t name)

Comparator-cases : (op : Comparator) → (op ≡ Comparator.eq) ⊎ (¬ (op ≡ Comparator.eq))
Comparator-cases Comparator.eq = inl refl
Comparator-cases Comparator.neq = inr (λ h. ground arith)
Comparator-cases Comparator.lt = inr (λ h. ground arith)
Comparator-cases Comparator.le = inr (λ h. ground arith)
Comparator-cases Comparator.gt = inr (λ h. ground arith)
Comparator-cases Comparator.ge = inr (λ h. ground arith)

equality_uses :
    (catalog : Catalog) (t : Text) (p : Predicate)
    → p.op ≡ Comparator.eq
    → usable_index catalog t p ≡ find_index_on_column catalog t p.column.column_name
unfolding usable_index
equality_uses catalog t p e = rw (e, usable_index) refl

other_uses :
    (op : Comparator) (catalog : Catalog) (t : Text) (p : Predicate)
    → p.op ≡ op
    → (¬ (op ≡ Comparator.eq))
    → usable_index catalog t p ≡ none
unfolding usable_index
other_uses Comparator.eq catalog t p e other = absurd (other refl)
other_uses Comparator.neq catalog t p e other = rw (e, usable_index) refl
other_uses Comparator.lt catalog t p e other = rw (e, usable_index) refl
other_uses Comparator.le catalog t p e other = rw (e, usable_index) refl
other_uses Comparator.gt catalog t p e other = rw (e, usable_index) refl
other_uses Comparator.ge catalog t p e other = rw (e, usable_index) refl

pub usable_index-eq-some :
    (catalog : Catalog) (t : Text) (p : Predicate) (i : IndexInfo)
    → usable_index catalog t p ≡ some i
    → IsAnswerable catalog t p i
usable_index-eq-some catalog t p i e = elim (Comparator-cases p.op) [
  | inl same ↦ record {
    is_equality = same;
    is_index =
        find_index_on_column-eq-some catalog t p.column.column_name i
          (sym (equality_uses catalog t p same) ∙ e);
  }
  | inr other ↦ absurd (ground (arith, sym (other_uses p.op catalog t p refl other) ∙ e))
]

pub usable_index-eq-none :
    (catalog : Catalog) (t : Text) (p : Predicate)
    → usable_index catalog t p ≡ none
    → IsUnanswerable catalog t p
usable_index-eq-none catalog t p e = elim (Comparator-cases p.op) [
  | inl same ↦ inr (
      find_index_on_column-eq-none catalog t p.column.column_name
        (sym (equality_uses catalog t p same) ∙ e))
  | inr other ↦ inl other
]
