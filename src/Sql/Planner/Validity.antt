-- ===== src/Sql/Planner/Validity.antt =====
-- sql_semantics.cpp and planner.cpp: the checks of a statement against the catalog, and what one that
-- passes says of the names.
use mathlib.Core.Path.{subst}
use flintdb.Prelude.{
  ◌≡◌, refl, ap, inl, inr, Bool, true, false, Option, none, some, List, [], ◌∷◌, Text, arith, All,
  ◌⊎◌, ◌++◌, text_eq_sound, Bool-cases, Option-cases,
}
use flintdb.Sql.Ast.{ColumnDef, Predicate}
use flintdb.Sql.Schema.{
  TableInfo, SemanticError, Attempt, returned, thrown, ◌>>=◌, ◌>>◌, require, check, kinds_match,
  find_column, require_column, require_literal_matches_column,
}
use flintdb.Sql.Planner.{validate_predicate, validate_predicates, in_scope}
use flintdb.Sql.Planner.Usable.{
  IsFirst, IsColumn, LiteralFits, Suits, text_neq, kinds_match-LiteralFits, mismatch-LiteralFits,
  find_column-eq-some, find_column-eq-none,
}

-- What a chain of two steps that ends well went through.
pub >>=-eq-returned {κ μ} :
    {R : Type κ} {S : Type μ} (first : Attempt R) (next : R → Attempt S) (s : S)
    → (first >>= next) ≡ returned s
    → (r : R) × (first ≡ returned r) × (next r ≡ returned s)
>>=-eq-returned (thrown why) next s h = ground arith
>>=-eq-returned (returned r) next s h = (r, refl, h)

pub require-eq-returned {ℓ} :
    {A : Type ℓ} (o : Option A) (e : SemanticError) (a : A) → require o e ≡ returned a → o ≡ some a
require-eq-returned none e a h = ground arith
require-eq-returned (some b) e a h =
    subst (λ r. elim r [ returned x ↦ some b ≡ some x | thrown y ↦ Unit ]) h refl

-- Unqualified, or qualified with the table's name.
abbrev pub IsInScope : TableInfo → Option Text → Type 0
IsInScope table q = (q ≡ none) ⊎ (q ≡ some table.name)

-- In the table's scope, with a literal that suits the table's column.
pub record IsValidOn (table : TableInfo) (p : Predicate) : Type 0 where
  pub in_its_scope : IsInScope table p.column.table_name
  pub suits : Suits table p

pub check-eq-returned :
    (b : Bool) (e : SemanticError) (u : Unit {0}) → check b e ≡ returned u → b ≡ true
check-eq-returned true e u h = refl
check-eq-returned false e u h = ground arith

-- What the lookup of a column and the check of a literal against it find out.
pub require_literal-Suits :
    (table : TableInfo) (p : Predicate) (column : ColumnDef) (u : Unit {0})
    → require_column table p.column.column_name ≡ returned column
    → require_literal_matches_column column p.value ≡ returned u
    → Suits table p
unfolding require_column require_literal_matches_column
require_literal-Suits table p column u found matches = record {
  column = column;
  is_column =
      find_column-eq-some table p.column.column_name column (require-eq-returned _ _ column found);
  fits = kinds_match-LiteralFits column.kind p.value.kind (check-eq-returned _ _ u matches);
}

-- Why a predicate is not valid on a table.
pub data IsInvalidOn (table : TableInfo) (p : Predicate) : SemanticError → Type 0 where
  out_of_scope :
      (t : Text)
      → p.column.table_name ≡ some t
      → (¬ (t ≡ table.name))
      → IsInvalidOn table p SemanticError.wrong_qualifier
  unknown_column :
      IsInScope table p.column.table_name
      → All (λ c. ¬ IsColumn p.column.column_name c) table.columns
      → IsInvalidOn table p SemanticError.no_such_column
  wrong_literal :
      (column : ColumnDef)
      → IsInScope table p.column.table_name
      → IsFirst (IsColumn p.column.column_name) column table.columns
      → (¬ LiteralFits column.kind p.value.kind)
      → IsInvalidOn table p SemanticError.wrong_literal_kind

-- What the check of one predicate comes to.
pub data Validates (table : TableInfo) (p : Predicate) : Attempt (Unit {0}) → Type 0 where
  accepted : IsValidOn table p → Validates table p (returned tt)
  refused : {why : SemanticError} → IsInvalidOn table p why → Validates table p (thrown why)

-- The first predicate of the WHERE clause that is not valid.
pub record IsFirstInvalid (table : TableInfo) (preds : List Predicate) (why : SemanticError)
    : Type 0 where
  pub before : List Predicate
  pub culprit : Predicate
  pub after : List Predicate
  pub is_split : preds ≡ before ++ (culprit ∷ after)
  pub valid_before : All (IsValidOn table) before
  pub is_invalid : IsInvalidOn table culprit why

pub data ValidatesAll (table : TableInfo) (preds : List Predicate)
    : Attempt (Unit {0}) → Type 0 where
  all_accepted : All (IsValidOn table) preds → ValidatesAll table preds (returned tt)
  one_refused :
      {why : SemanticError} → IsFirstInvalid table preds why → ValidatesAll table preds (thrown why)

in_scope-IsInScope :
    (table : TableInfo) (q : Option Text) → in_scope q table.name ≡ true → IsInScope table q
in_scope-IsInScope table none h = inl refl
in_scope-IsInScope table (some t) h = inr (ap (λ x. some x) (text_eq_sound t table.name h))

not_in_scope :
    (table : TableInfo) (q : Option Text)
    → in_scope q table.name ≡ false
    → (t : Text) × (q ≡ some t) × (¬ (t ≡ table.name))
not_in_scope table none h = absurd (ground (arith, h))
not_in_scope table (some t) h = (t, refl, text_neq t table.name h)

-- The check of the literal, for a column that was found.
literal-Validates :
    (table : TableInfo) (p : Predicate) (column : ColumnDef)
    → IsInScope table p.column.table_name
    → IsFirst (IsColumn p.column.column_name) column table.columns
    → Validates table p (require_literal_matches_column column p.value)
unfolding require_literal_matches_column
literal-Validates table p column scoped found =
    elim (Bool-cases (kinds_match column.kind p.value.kind)) [
      | inl same ↦
          rw (same, require_literal_matches_column)
            (accepted (record {
              in_its_scope = scoped;
              suits = record {
                column = column;
                is_column = found;
                fits = kinds_match-LiteralFits column.kind p.value.kind same;
              };
            }))
      | inr other ↦
          rw (other, require_literal_matches_column)
            (refused (
              wrong_literal column scoped found
                (mismatch-LiteralFits column.kind p.value.kind other)))
    ]

validate_predicate-Validates :
    (table : TableInfo) (p : Predicate) → Validates table p (validate_predicate table p)
unfolding validate_predicate require_column
validate_predicate-Validates table p = elim (Bool-cases (in_scope p.column.table_name table.name)) [
  | inr out ↦
      let (t, named, other) = not_in_scope table p.column.table_name out in
      rw (out, validate_predicate) (refused (out_of_scope t named other))
  | inl inside ↦
      let scoped = in_scope-IsInScope table p.column.table_name inside in
      elim (Option-cases (find_column table p.column.column_name)) [
        | inl e ↦
            rw (inside, e, validate_predicate, require_column)
              (refused (unknown_column scoped (find_column-eq-none table p.column.column_name e)))
        | inr (column, e) ↦
            rw (inside, e, validate_predicate, require_column)
              (literal-Validates table p column scoped
                (find_column-eq-some table p.column.column_name column e))
      ]
]

-- One predicate, and then the others.
Validates-next :
    (table : TableInfo) (p : Predicate) (ps : List Predicate) (one rest : Attempt (Unit {0}))
    → Validates table p one
    → ValidatesAll table ps rest
    → ValidatesAll table (p ∷ ps) (one >> rest)
Validates-next table p ps one rest (accepted valid) (all_accepted others) =
    all_accepted (valid, others)
Validates-next table p ps one rest (accepted valid) (one_refused r) = one_refused (record {
  before = p ∷ r.before;
  culprit = r.culprit;
  after = r.after;
  is_split = ap (λ x. p ∷ x) r.is_split;
  valid_before = (valid, r.valid_before);
  is_invalid = r.is_invalid;
})
Validates-next table p ps one rest (refused why) others = one_refused (record {
  before = [];
  culprit = p;
  after = ps;
  is_split = refl;
  valid_before = tt;
  is_invalid = why;
})

pub validate_predicates-ValidatesAll :
    (table : TableInfo) (preds : List Predicate)
    → ValidatesAll table preds (validate_predicates table preds)
unfolding validate_predicates
validate_predicates-ValidatesAll table [] = all_accepted tt
validate_predicates-ValidatesAll table (p ∷ ps) =
    Validates-next table p ps _ _ (validate_predicate-Validates table p)
      (validate_predicates-ValidatesAll table ps)
