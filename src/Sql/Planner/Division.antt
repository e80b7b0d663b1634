-- ===== src/Sql/Planner/Division.antt =====
-- planner.cpp: how a join divides the WHERE clause between its two tables.
use mathlib.Core.Path.{subst}
use flintdb.Prelude.{◌≡◌, refl, ap, ◌∙◌, Bool, true, false, ◌&&◌, List, [], ◌∷◌, All}
use flintdb.Sql.Ast.{Predicate}
use flintdb.Sql.Schema.{TableInfo, returned, thrown, require_column, require_literal_matches_column}
use flintdb.Sql.Planner.{
  JoinSide, outer_side, inner_side, side_table, put_side, resolve_column_side, split_predicates,
}
use flintdb.Sql.Planner.Usable.{Suits}
use flintdb.Sql.Planner.Sides.{Belongs, BelongsTo, resolve_column_side-BelongsTo}
use flintdb.Sql.Planner.Validity.{>>=-eq-returned, require_literal-Suits}
use flintdb.Sql.Planner.Access.{all_hold}

-- The predicate is on this table of the two, with a literal of its column's type.
pub record IsOn (mine other : TableInfo) (p : Predicate) : Type 0 where
  pub belongs : Belongs mine other p.column
  pub suits : Suits mine p

abbrev GoesTo : JoinSide → TableInfo → TableInfo → Predicate → Type 0
GoesTo outer_side outer inner p = IsOn outer inner p
GoesTo inner_side outer inner p = IsOn inner outer p

-- A WHERE clause divided between two tables.
pub record Divided (outer inner : TableInfo) (preds outers inners : List Predicate) : Type 0 where
  pub on_outer : All (IsOn outer inner) outers
  pub on_inner : All (IsOn inner outer) inners
  pub is_conjunction :
      (holds : Predicate → Bool)
      → all_hold holds preds ≡ (all_hold holds outers && all_hold holds inners)

swap_and : (a b c : Bool) → (a && (b && c)) ≡ (b && (a && c))
swap_and true b c = refl
swap_and false true c = refl
swap_and false false c = refl

and_assoc : (a b c : Bool) → (a && (b && c)) ≡ ((a && b) && c)
and_assoc true b c = refl
and_assoc false b c = refl

put_side-Divided :
    {outer inner : TableInfo} {preds outers inners : List Predicate} (side : JoinSide)
    (p : Predicate)
    → GoesTo side outer inner p
    → Divided outer inner preds outers inners
    → Divided outer inner
        (p ∷ preds)
        (put_side side p (outers, inners)).0
        (put_side side p (outers, inners)).1
unfolding all_hold
put_side-Divided {outers = outers} {inners} outer_side p h d = record {
  on_outer = (h, d.on_outer);
  on_inner = d.on_inner;
  is_conjunction = λ holds.
      ap (λ b. holds p && b) (d.is_conjunction holds)
      ∙ and_assoc (holds p) (all_hold holds outers) (all_hold holds inners);
}
put_side-Divided {outers = outers} {inners} inner_side p h d = record {
  on_outer = d.on_outer;
  on_inner = (h, d.on_inner);
  is_conjunction = λ holds.
      ap (λ b. holds p && b) (d.is_conjunction holds)
      ∙ swap_and (holds p) (all_hold holds outers) (all_hold holds inners);
}

nothing_Divided : (outer inner : TableInfo) → Divided outer inner [] [] []
unfolding all_hold
nothing_Divided outer inner = record {
  on_outer = tt;
  on_inner = tt;
  is_conjunction = λ holds. refl;
}

goes_to :
    (side : JoinSide) (outer inner : TableInfo) (p : Predicate)
    → BelongsTo side outer inner p.column
    → Suits (side_table side outer inner) p
    → GoesTo side outer inner p
goes_to outer_side outer inner p b s = record { belongs = b; suits = s }
goes_to inner_side outer inner p b s = record { belongs = b; suits = s }

pub split_predicates-Divided :
    (outer inner : TableInfo) (preds : List Predicate) (sides : List Predicate × List Predicate)
    → split_predicates outer inner preds ≡ returned sides
    → Divided outer inner preds sides.0 sides.1
unfolding split_predicates
split_predicates-Divided outer inner [] sides h =
    subst (λ r. elim r [ returned s ↦ Divided outer inner [] s.0 s.1 | thrown e ↦ Unit ]) h
      (nothing_Divided outer inner)
split_predicates-Divided outer inner (p ∷ ps) sides h =
    let (side, resolved, h1) =
      >>=-eq-returned (resolve_column_side outer inner p.column) _ sides h in
    let (col, found, h2) =
      >>=-eq-returned (require_column (side_table side outer inner) p.column.column_name) _ sides
        h1 in
    let (u, matches, h3) =
      >>=-eq-returned (require_literal_matches_column col p.value) _ sides h2 in
    let (rest, split, h4) = >>=-eq-returned (split_predicates outer inner ps) _ sides h3 in
    let goes =
      goes_to side outer inner p (resolve_column_side-BelongsTo outer inner p.column side resolved)
        (require_literal-Suits (side_table side outer inner) p col u found matches) in
    subst (λ r. elim r [ returned s ↦ Divided outer inner (p ∷ ps) s.0 s.1 | thrown e ↦ Unit ]) h4
      (put_side-Divided side p goes (split_predicates-Divided outer inner ps rest split))
