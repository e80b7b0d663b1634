-- ===== src/Sql/Planner/Sides.antt =====
-- planner.cpp: which of the two tables of a join a column reference means.
use mathlib.Core.Path.{subst}
use flintdb.Prelude.{
  ◌≡◌, refl, ap, sym, ◌∙◌, inl, inr, true, Option, none, some, Text, text_eq, text_eq_sound,
  Bool-cases, Option-cases, arith, All,
}
use flintdb.Sql.Ast.{ColumnDef, ColumnRef}
use flintdb.Sql.Schema.{TableInfo, returned, ◌>>=◌, require_column, find_column}
use flintdb.Sql.Planner.{
  JoinSide, outer_side, inner_side, resolve_unqualified, resolve_qualified, resolve_column_side,
}
use flintdb.Sql.Planner.Usable.{IsFirst, IsColumn, find_column-eq-some, find_column-eq-none}
use flintdb.Sql.Planner.Validity.{>>=-eq-returned, require-eq-returned}

-- Which of two tables a column reference means: the one it is qualified with, or the only one with a
-- column of this name.
pub data Belongs (mine other : TableInfo) (ref : ColumnRef) : Type 0 where
  qualified :
      (c : ColumnDef)
      → ref.table_name ≡ some mine.name
      → IsFirst (IsColumn ref.column_name) c mine.columns
      → Belongs mine other ref
  unqualified :
      (c : ColumnDef)
      → ref.table_name ≡ none
      → IsFirst (IsColumn ref.column_name) c mine.columns
      → All (λ d. ¬ IsColumn ref.column_name d) other.columns
      → Belongs mine other ref

-- The tables in the order in which this side is the first.
abbrev pub BelongsTo : JoinSide → TableInfo → TableInfo → ColumnRef → Type 0
BelongsTo outer_side outer inner ref = Belongs outer inner ref
BelongsTo inner_side outer inner ref = Belongs inner outer ref

returned_once : {a b : JoinSide} → returned a ≡ returned b → a ≡ b
returned_once h = cc

abbrev OnlyIn : JoinSide → Option ColumnDef → Option ColumnDef → Type 0
OnlyIn outer_side in_outer in_inner = (c : ColumnDef) × (in_outer ≡ some c) × (in_inner ≡ none)
OnlyIn inner_side in_outer in_inner = (c : ColumnDef) × (in_inner ≡ some c) × (in_outer ≡ none)

resolve_unqualified-OnlyIn :
    (in_outer in_inner : Option ColumnDef) (side : JoinSide)
    → resolve_unqualified in_outer in_inner ≡ returned side
    → OnlyIn side in_outer in_inner
unfolding resolve_unqualified
resolve_unqualified-OnlyIn (some a) (some b) side h = ground arith
resolve_unqualified-OnlyIn (some a) none outer_side h = (a, refl, refl)
resolve_unqualified-OnlyIn (some a) none inner_side h = ground arith
resolve_unqualified-OnlyIn none (some b) outer_side h = ground arith
resolve_unqualified-OnlyIn none (some b) inner_side h = (b, refl, refl)
resolve_unqualified-OnlyIn none none side h = ground arith

unqualified-BelongsTo :
    (side : JoinSide) (outer inner : TableInfo) (ref : ColumnRef)
    → ref.table_name ≡ none
    → OnlyIn side (find_column outer ref.column_name) (find_column inner ref.column_name)
    → BelongsTo side outer inner ref
unqualified-BelongsTo outer_side outer inner ref bare (c, mine, other) =
    unqualified c bare (find_column-eq-some outer ref.column_name c mine)
      (find_column-eq-none inner ref.column_name other)
unqualified-BelongsTo inner_side outer inner ref bare (c, mine, other) =
    unqualified c bare (find_column-eq-some inner ref.column_name c mine)
      (find_column-eq-none outer ref.column_name other)

-- The lookup of a column in the table that a reference is qualified with.
qualified-Belongs :
    (mine other : TableInfo) (ref : ColumnRef) (t : Text) (side found : JoinSide)
    → ref.table_name ≡ some t
    → text_eq t mine.name ≡ true
    → (require_column mine ref.column_name >>= (λ c. returned side)) ≡ returned found
    → Belongs mine other ref × (side ≡ found)
unfolding require_column
qualified-Belongs mine other ref t side found named same h =
    let (c, is_column, h1) =
      >>=-eq-returned (require_column mine ref.column_name) (λ c. returned side) found h in
    (
      qualified c (named ∙ ap (λ x. some x) (text_eq_sound t mine.name same))
          (find_column-eq-some mine ref.column_name c (require-eq-returned _ _ c is_column)),
      returned_once h1,
    )

resolve_qualified-BelongsTo :
    (outer inner : TableInfo) (ref : ColumnRef) (t : Text) (side : JoinSide)
    → ref.table_name ≡ some t
    → resolve_qualified outer inner t ref.column_name ≡ returned side
    → BelongsTo side outer inner ref
unfolding resolve_qualified
resolve_qualified-BelongsTo outer inner ref t side named h =
    elim (Bool-cases (text_eq t outer.name)) [
      | inl e ↦
          let is_outer : resolve_qualified outer inner t ref.column_name
              ≡ (require_column outer ref.column_name >>= (λ c. returned outer_side)) =
            rw (e, resolve_qualified) refl in
          let (b, at) =
            qualified-Belongs outer inner ref t outer_side side named e (sym is_outer ∙ h) in
          subst (λ x. BelongsTo x outer inner ref) at b
      | inr e ↦ elim (Bool-cases (text_eq t inner.name)) [
        | inl f ↦
            let is_inner : resolve_qualified outer inner t ref.column_name
                ≡ (require_column inner ref.column_name >>= (λ c. returned inner_side)) =
              rw (e, f, resolve_qualified) refl in
            let (b, at) =
              qualified-Belongs inner outer ref t inner_side side named f (sym is_inner ∙ h) in
            subst (λ x. BelongsTo x outer inner ref) at b
        | inr f ↦ absurd (ground (arith, e, f, h))
      ]
    ]

resolve_column_side-unqualified :
    (outer inner : TableInfo) (ref : ColumnRef)
    → ref.table_name ≡ none
    → resolve_column_side outer inner ref
      ≡ resolve_unqualified (find_column outer ref.column_name) (find_column inner ref.column_name)
unfolding resolve_column_side
resolve_column_side-unqualified outer inner ref e = rw (e, resolve_column_side) refl

resolve_column_side-qualified :
    (outer inner : TableInfo) (ref : ColumnRef) (t : Text)
    → ref.table_name ≡ some t
    → resolve_column_side outer inner ref ≡ resolve_qualified outer inner t ref.column_name
unfolding resolve_column_side
resolve_column_side-qualified outer inner ref t e = rw (e, resolve_column_side) refl

pub resolve_column_side-BelongsTo :
    (outer inner : TableInfo) (ref : ColumnRef) (side : JoinSide)
    → resolve_column_side outer inner ref ≡ returned side
    → BelongsTo side outer inner ref
resolve_column_side-BelongsTo outer inner ref side h = elim (Option-cases ref.table_name) [
  | inl e ↦ unqualified-BelongsTo side outer inner ref e (
      resolve_unqualified-OnlyIn _ _ side
        (sym (resolve_column_side-unqualified outer inner ref e) ∙ h))
  | inr (t, e) ↦
      resolve_qualified-BelongsTo outer inner ref t side e
        (sym (resolve_column_side-qualified outer inner ref t e) ∙ h)
]
