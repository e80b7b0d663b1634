-- ===== src/Sql/Planner/Driving.antt =====
-- planner.cpp: the loop of PlanTableAccess that looks for the driving predicate.
use mathlib.Core.Path.{subst}
use flintdb.Prelude.{
  ℕ, suc, ◌<◌, ◌≤◌, ◌≡◌, refl, ap, sym, ◌∙◌, inl, inr, Option, none, some, List, [], ◌∷◌, ◌++◌,
  Text, Option-cases, arith, All,
}
use flintdb.Prelude.Int.{ℤ}
use flintdb.Sql.Ast.{Predicate}
use flintdb.Sql.Schema.{IndexInfo, Catalog}
use flintdb.Sql.Planner.{Driver, usable_index, find_driver, residuals}
use flintdb.Sql.Planner.Usable.{
  IsAnswerable, IsUnanswerable, usable_index-eq-some, usable_index-eq-none,
}

-- How the WHERE clause falls apart at the predicate that the index answers.
pub record Driven (catalog : Catalog) (table_name : Text) (preds : List Predicate)
    (index : IndexInfo) (key : ℤ) (rest : List Predicate) : Type 0 where
  pub before : List Predicate
  pub driving : Predicate
  pub after : List Predicate
  pub is_split : preds ≡ before ++ (driving ∷ after)
  pub is_rest : rest ≡ before ++ after
  pub is_first : All (IsUnanswerable catalog table_name) before
  pub is_usable : IsAnswerable catalog table_name driving index
  pub is_key : key ≡ driving.value.int_value

pub residuals_without_driver : (preds : List Predicate) (i : ℕ) → residuals none preds i ≡ preds
unfolding residuals
residuals_without_driver [] i = refl
residuals_without_driver (p ∷ ps) i = ap (λ r. p ∷ r) (residuals_without_driver ps (suc i))

residuals_after_driver :
    (d : Driver) (preds : List Predicate) (i : ℕ)
    → d.position < i
    → residuals (some d) preds i ≡ preds
unfolding residuals
residuals_after_driver d [] i h = refl
residuals_after_driver d (p ∷ ps) i h = ground (arith, residuals_after_driver d ps (suc i))

find_driver-skip :
    (c : Catalog) (t : Text) (p : Predicate) (ps : List Predicate) (i : ℕ)
    → usable_index c t p ≡ none
    → find_driver c t (p ∷ ps) i ≡ find_driver c t ps (suc i)
unfolding find_driver
find_driver-skip c t p ps i e = rw (e, find_driver) refl

find_driver-take :
    (c : Catalog) (t : Text) (p : Predicate) (ps : List Predicate) (i : ℕ) (index : IndexInfo)
    → usable_index c t p ≡ some index
    → find_driver c t (p ∷ ps) i
      ≡ some (record { position = i; index = index; key = p.value.int_value })
unfolding find_driver
find_driver-take c t p ps i index e = rw (e, find_driver) refl

abbrev IsNone : Option Driver → Type 0
IsNone none = Unit
IsNone (some d) = ⊥

pub find_driver-eq-none :
    (c : Catalog) (t : Text) (preds : List Predicate) (i : ℕ)
    → find_driver c t preds i ≡ none
    → All (IsUnanswerable c t) preds
find_driver-eq-none c t [] i h = tt
find_driver-eq-none c t (p ∷ ps) i h = elim (Option-cases (usable_index c t p)) [
  | inl e ↦ (
    usable_index-eq-none c t p e,
    find_driver-eq-none c t ps (suc i) (sym (find_driver-skip c t p ps i e) ∙ h),
  )
  | inr (index, e) ↦ absurd (subst IsNone (sym h ∙ find_driver-take c t p ps i index e) tt)
]

find_driver_position :
    (c : Catalog) (t : Text) (preds : List Predicate) (i : ℕ) (d : Driver)
    → find_driver c t preds i ≡ some d
    → i ≤ d.position
unfolding find_driver
find_driver_position c t [] i d h = ground arith
find_driver_position c t (p ∷ ps) i d h = elim (Option-cases (usable_index c t p)) [
  | inl e ↦
      let later : suc i ≤ d.position =
        find_driver_position c t ps (suc i) d (sym (find_driver-skip c t p ps i e) ∙ h) in
      omega arith
  | inr (index, e) ↦
      subst (λ o. elim o [ none ↦ Unit | some d' ↦ i ≤ d'.position ])
        (sym (find_driver-take c t p ps i index e) ∙ h) (omega arith)
]

residuals-keep :
    (d : Driver) (p : Predicate) (ps : List Predicate) (i : ℕ)
    → i < d.position
    → residuals (some d) (p ∷ ps) i ≡ p ∷ residuals (some d) ps (suc i)
unfolding residuals
residuals-keep d p ps i h = ground arith

residuals-drop :
    (d : Driver) (p : Predicate) (ps : List Predicate) (i : ℕ)
    → i ≡ d.position
    → residuals (some d) (p ∷ ps) i ≡ ps
unfolding residuals
residuals-drop d p ps i h = ground (arith, residuals_after_driver d ps (suc i))

later_driver :
    {c : Catalog} {t : Text} {p : Predicate} {ps : List Predicate} {d : Driver} {i : ℕ}
    → usable_index c t p ≡ none
    → i < d.position
    → Driven c t ps d.index d.key (residuals (some d) ps (suc i))
    → Driven c t (p ∷ ps) d.index d.key (residuals (some d) (p ∷ ps) i)
later_driver {c} {t} {p} {ps} {d} {i} e h r = record {
  before = p ∷ r.before;
  driving = r.driving;
  after = r.after;
  is_split = ap (λ x. p ∷ x) r.is_split;
  is_rest = residuals-keep d p ps i h ∙ ap (λ x. p ∷ x) r.is_rest;
  is_first = (usable_index-eq-none c t p e, r.is_first);
  is_usable = r.is_usable;
  is_key = r.is_key;
}

pub find_driver-Driven :
    (c : Catalog) (t : Text) (preds : List Predicate) (i : ℕ) (d : Driver)
    → find_driver c t preds i ≡ some d
    → Driven c t preds d.index d.key (residuals (some d) preds i)
unfolding find_driver
find_driver-Driven c t [] i d h = ground arith
find_driver-Driven c t (p ∷ ps) i d h = elim (Option-cases (usable_index c t p)) [
  | inl e ↦
      let next = sym (find_driver-skip c t p ps i e) ∙ h in
      later_driver e (find_driver_position c t ps (suc i) d next)
        (find_driver-Driven c t ps (suc i) d next)
  | inr (index, e) ↦
      subst
        (λ o. elim o [
          | none ↦ Unit
          | some d' ↦ Driven c t (p ∷ ps) d'.index d'.key (residuals (some d') (p ∷ ps) i)
        ])
        (sym (find_driver-take c t p ps i index e) ∙ h)
        (record {
          before = [];
          driving = p;
          after = ps;
          is_split = refl;
          is_rest =
              residuals-drop (record { position = i; index = index; key = p.value.int_value }) p ps
                i refl;
          is_first = tt;
          is_usable = usable_index-eq-some c t p index e;
          is_key = refl;
        })
]
