-- ===== src/Index/BPlusTree/Contents.antt =====
-- btree.cpp: the tree that the nodes make, its entries, and the routing that Search relies on.
use flintdb.Prelude.{
  ℕ, ◌≡◌, refl, ap, true, false, List, [], ◌∷◌, ◌++◌, append-nil, arith, get_or, All, Bool-cases,
  inl, inr, if◌then◌else◌,
}
use flintdb.Prelude.Int.{ℤ, int_eq, int_lt}
use flintdb.Txn.HeapFile.{Rid}
use flintdb.Index.Node.{LeafNode, upper_bound}
use flintdb.Index.Node.Split.{int_eq_sound}
use flintdb.Index.BPlusTree.{values_at}

-- A node has a first child, and then keys with the child that stands after each.
mutual
  pub data Tree : Type 0 where
    leaf : ℕ → LeafNode → Tree
    node : ℕ → Tree → Forest → Tree

  pub data Forest : Type 0 where
    done : Forest
    after : ℤ → Tree → Forest → Forest

abbrev pub root_id : Tree → ℕ
root_id (leaf pid l) = pid
root_id (node pid t f) = pid

unfoldable pub keys_of : Forest → List ℤ
keys_of done = []
keys_of (after k t f) = k ∷ keys_of f

unfoldable pub ids_of : Forest → List ℕ
ids_of done = []
ids_of (after k t f) = root_id t ∷ ids_of f

-- Every value that stands beside a key, from the first leaf to the last.
unfoldable mutual
  pub values_in : ℤ → Tree → List Rid
  values_in key (leaf pid l) = values_at key l.keys l.values
  values_in key (node pid t f) = values_in key t ++ values_in_forest key f

  pub values_in_forest : ℤ → Forest → List Rid
  values_in_forest key done = []
  values_in_forest key (after k t f) = values_in key t ++ values_in_forest key f

-- Every key satisfies a predicate.
unfoldable mutual
  pub EachKey : (ℤ → Type 0) → Tree → Type 0
  EachKey P (leaf pid l) = All P l.keys
  EachKey P (node pid t f) = EachKey P t × EachKeyOf P f

  pub EachKeyOf : (ℤ → Type 0) → Forest → Type 0
  EachKeyOf P done = Unit {0}
  EachKeyOf P (after k t f) = EachKey P t × EachKeyOf P f

-- At a separator every key of the child before it is smaller, and no key after it is.
unfoldable mutual
  pub IsRouted : Tree → Type 0
  IsRouted (leaf pid l) = Unit {0}
  IsRouted (node pid t f) = IsRouted t × Separates t f

  pub Separates : Tree → Forest → Type 0
  Separates t done = Unit {0}
  Separates t (after k u f) =
      EachKey (λ x. int_lt x k ≡ true) t
      × EachKey (λ x. int_lt x k ≡ false) u
      × EachKeyOf (λ x. int_lt x k ≡ false) f
      × IsRouted u
      × Separates u f

-- The child that a key is routed to.
unfoldable pub route : ℤ → Tree → Forest → Tree
route key t done = t
route key t (after k u f) = let rest = route key u f in if int_lt key k then t else rest

pub route-root_id :
    (key : ℤ) (t : Tree) (f : Forest)
    → get_or (root_id t ∷ ids_of f) (upper_bound (keys_of f) key) 0 ≡ root_id (route key t f)
unfolding upper_bound keys_of ids_of route
route-root_id key t done = refl
route-root_id key t (after k u f) = elim (Bool-cases (int_lt key k)) [
  | inl before ↦ rw before refl
  | inr from ↦ rw from (route-root_id key u f)
]

values_at-none :
    (key : ℤ) (keys : List ℤ) (values : List Rid)
    → All (λ x. int_eq x key ≡ false) keys
    → values_at key keys values ≡ []
unfolding values_at
values_at-none key [] values h = refl
values_at-none key (k ∷ keys) [] h = refl
values_at-none key (k ∷ keys) (v ∷ values) h = rw (h.0) (values_at-none key keys values h.1)

mutual
  unfolding values_in EachKey

  values_in-none :
      (key : ℤ) (t : Tree) → EachKey (λ x. int_eq x key ≡ false) t → values_in key t ≡ []
  values_in-none key (leaf pid l) h = values_at-none key l.keys l.values h
  values_in-none key (node pid t f) h =
      rw (values_in-none key t h.0) (values_in_forest-none key f h.1)

  values_in_forest-none :
      (key : ℤ) (f : Forest) → EachKeyOf (λ x. int_eq x key ≡ false) f → values_in_forest key f ≡ []
  values_in_forest-none key done h = refl
  values_in_forest-none key (after k t f) h =
      rw (values_in-none key t h.0) (values_in_forest-none key f h.1)

All-weaken : {P Q : ℤ → Type 0} (xs : List ℤ) → ((x : ℤ) → P x → Q x) → All P xs → All Q xs
All-weaken [] g h = tt
All-weaken (x ∷ xs) g h = (g x h.0, All-weaken xs g h.1)

mutual
  unfolding EachKey

  EachKey-weaken : {P Q : ℤ → Type 0} (t : Tree) → ((x : ℤ) → P x → Q x) → EachKey P t → EachKey Q t
  EachKey-weaken (leaf pid l) g h = All-weaken l.keys g h
  EachKey-weaken (node pid t f) g h = (EachKey-weaken t g h.0, EachKeyOf-weaken f g h.1)

  EachKeyOf-weaken :
      {P Q : ℤ → Type 0} (f : Forest) → ((x : ℤ) → P x → Q x) → EachKeyOf P f → EachKeyOf Q f
  EachKeyOf-weaken done g h = tt
  EachKeyOf-weaken (after k t f) g h = (EachKey-weaken t g h.0, EachKeyOf-weaken f g h.1)

-- Keys on different sides of a separator differ.
apart : (x key k : ℤ) → int_lt x k ≡ true → int_lt key k ≡ false → int_eq x key ≡ false
apart x key k h g = elim (Bool-cases (int_eq x key)) [
  | inr other ↦ other
  | inl same ↦
      let e = int_eq_sound x key same in absurd (ground (arith, ap (λ y. int_lt y k) e, h, g))
]

apart_above : (x key k : ℤ) → int_lt x k ≡ false → int_lt key k ≡ true → int_eq x key ≡ false
apart_above x key k h g = elim (Bool-cases (int_eq x key)) [
  | inr other ↦ other
  | inl same ↦
      let e = int_eq_sound x key same in absurd (ground (arith, ap (λ y. int_lt y k) e, h, g))
]

-- The child that a key is routed to has every value of the node that stands beside it.
pub values_in-route :
    (key : ℤ) (t : Tree) (f : Forest)
    → Separates t f
    → values_in key t ++ values_in_forest key f ≡ values_in key (route key t f)
unfolding values_in IsRouted route EachKey
values_in-route key t done s = append-nil (values_in key t)
values_in-route key t (after k u f) s = elim (Bool-cases (int_lt key k)) [
  | inl before ↦
      rw
        (
          before,
          values_in-none key u (EachKey-weaken u (λ x h. apart_above x key k h before) s.1),
          values_in_forest-none key f
              (EachKeyOf-weaken f (λ x h. apart_above x key k h before) s.2),
        )
        (append-nil (values_in key t))
  | inr from ↦
      rw (from, values_in-none key t (EachKey-weaken t (λ x h. apart x key k h from) s.0))
        (values_in-route key u f s.4)
]
