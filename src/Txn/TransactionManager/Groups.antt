-- ===== src/Txn/TransactionManager/Groups.antt =====
-- transaction_manager.cpp: GroupDirtiedPagesByObject keeps every page, under its object.
use mathlib.Core.Path.{subst}
use flintdb.Prelude.{
  ℕ, ◌≡◌, refl, ◌∙◌, ◌&&◌, ◌||◌, List, [], ◌∷◌, ◌==◌, ==_iff, nat_key, has, insert, has-insert, ltb,
  arith, All, Bool-cases, inl, inr,
}
use flintdb.Txn.LockManager.{PageKey, page_key}
use flintdb.Txn.TransactionManager.{add_page, group_dirtied_pages_by_object}
use flintdb.Txn.TransactionManager.Records.{in_groups}

abbrev pub key_of : ℕ → ℕ → PageKey
key_of o pid = record { object_id = o; page_id = pid }

in_groups-add_page :
    (i p : ℕ) (gs : List (ℕ × List ℕ)) (o q : ℕ)
    → in_groups o q (add_page i p gs) ≡ (((o == i) && (q == p)) || in_groups o q gs)
unfolding in_groups add_page has
in_groups-add_page i p [] o q = ground (arith, has-insert p q [])
in_groups-add_page i p (g ∷ gs) o q = ground (
  arith,
  in_groups-add_page i p gs o q,
  has-insert p q g.1,
  ==_iff g.0 i,
  ==_iff o i,
  ==_iff o g.0,
)

-- The groups that are made of a set of pages have exactly the pages of the set.
pub in_groups-group :
    (ks : List PageKey) (gs : List (ℕ × List ℕ)) (o q : ℕ)
    → in_groups o q (group_dirtied_pages_by_object ks gs)
      ≡ (has (key_of o q) ks || in_groups o q gs)
unfolding group_dirtied_pages_by_object has
in_groups-group [] gs o q = refl
in_groups-group (k ∷ ks) gs o q =
    in_groups-group ks (add_page k.object_id k.page_id gs) o q
    ∙ ground (arith, in_groups-add_page k.object_id k.page_id gs o q)

All-insert {κ} : (P : ℕ → Type κ) (p : ℕ) (xs : List ℕ) → P p → All P xs → All P (insert p xs)
unfolding insert
All-insert P p [] h a = (h, tt)
All-insert P p (x ∷ xs) h a = elim (Bool-cases (p == x)) [
  | inl same ↦ rw same a
  | inr other ↦ elim (Bool-cases (ltb p x)) [
    | inl before ↦ rw (other, before) (h, a)
    | inr after ↦ rw (other, after) (a.0, All-insert P p xs h a.1)
  ]
]

abbrev pub AllGroups {κ} : (ℕ → ℕ → Type κ) → List (ℕ × List ℕ) → Type κ
AllGroups P gs = All (λ g. All (P g.0) g.1) gs

add_page-AllGroups {κ} :
    (P : ℕ → ℕ → Type κ) (o p : ℕ) (gs : List (ℕ × List ℕ))
    → P o p
    → AllGroups P gs
    → AllGroups P (add_page o p gs)
unfolding add_page
add_page-AllGroups P o p [] h a = (All-insert (P o) p [] h tt, tt)
add_page-AllGroups P o p (g ∷ gs) h a = elim (Bool-cases (g.0 == o)) [
  | inl same ↦
      rw same
        (All-insert (P o) p g.1 h (subst (λ i. All (P i) g.1) ((==_iff g.0 o).0 same) a.0), a.1)
  | inr other ↦ rw other (a.0, add_page-AllGroups P o p gs h a.1)
]

pub group-AllGroups {κ} :
    (P : ℕ → ℕ → Type κ) (ks : List PageKey) (gs : List (ℕ × List ℕ))
    → All (λ k. P k.object_id k.page_id) ks
    → AllGroups P gs
    → AllGroups P (group_dirtied_pages_by_object ks gs)
unfolding group_dirtied_pages_by_object
group-AllGroups P [] gs h a = a
group-AllGroups P (k ∷ ks) gs h a =
    group-AllGroups P ks (add_page k.object_id k.page_id gs) h.1
      (add_page-AllGroups P k.object_id k.page_id gs h.0 a)

add_page-objects {κ} :
    (Q : ℕ → Type κ) (o p : ℕ) (gs : List (ℕ × List ℕ))
    → Q o
    → All (λ g. Q g.0) gs
    → All (λ g. Q g.0) (add_page o p gs)
unfolding add_page
add_page-objects Q o p [] h a = (h, tt)
add_page-objects Q o p (g ∷ gs) h a = elim (Bool-cases (g.0 == o)) [
  | inl same ↦ rw same (h, a.1)
  | inr other ↦ rw other (a.0, add_page-objects Q o p gs h a.1)
]

pub group-objects {κ} :
    (Q : ℕ → Type κ) (ks : List PageKey) (gs : List (ℕ × List ℕ))
    → All (λ k. Q k.object_id) ks
    → All (λ g. Q g.0) gs
    → All (λ g. Q g.0) (group_dirtied_pages_by_object ks gs)
unfolding group_dirtied_pages_by_object
group-objects Q [] gs h a = a
group-objects Q (k ∷ ks) gs h a =
    group-objects Q ks (add_page k.object_id k.page_id gs) h.1
      (add_page-objects Q k.object_id k.page_id gs h.0 a)
