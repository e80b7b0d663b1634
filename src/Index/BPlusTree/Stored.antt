-- ===== src/Index/BPlusTree/Stored.antt =====
-- btree.cpp: the pages that hold a tree, and its depth.
use Prim.Native.Nat.{max}
use flintdb.Prelude.{
  ℕ, suc, ◌≤◌, ◌≡◌, true, false, Option, some, List, ◌∷◌, arith, Bool-cases, inl, inr,
}
use flintdb.Prelude.Int.{ℤ, int_lt}
use flintdb.Storage.Page.{Page}
use flintdb.Index.Node.{deserialize_leaf, deserialize_internal}
use flintdb.Index.BPlusTree.{is_leaf}
use flintdb.Index.BPlusTree.Contents.{
  Tree, Forest, leaf, node, done, after, root_id, keys_of, ids_of, IsRouted, Separates, route,
}

-- The pages hold the nodes of a tree.
unfoldable mutual
  pub Stored : (ℕ → Option (List ℕ)) → Tree → Type 0
  Stored v (leaf pid l) =
      (page : Page) × (v pid ≡ some page.buf)
      × (is_leaf page ≡ true)
      × (deserialize_leaf page.buf ≡ l)
  Stored v (node pid t f) =
      (page : Page) × (v pid ≡ some page.buf)
      × (is_leaf page ≡ false)
      × ((deserialize_internal page.buf).keys ≡ keys_of f)
      × ((deserialize_internal page.buf).children ≡ root_id t ∷ ids_of f)
      × Stored v t
      × StoredForest v f

  pub StoredForest : (ℕ → Option (List ℕ)) → Forest → Type 0
  StoredForest v done = Unit {0}
  StoredForest v (after k t f) = Stored v t × StoredForest v f

unfoldable mutual
  pub depth : Tree → ℕ
  depth (leaf pid l) = 1
  depth (node pid t f) = suc (max (depth t) (depth_forest f))

  pub depth_forest : Forest → ℕ
  depth_forest done = 0
  depth_forest (after k t f) = max (depth t) (depth_forest f)

pub depth-route :
    (key : ℤ) (t : Tree) (f : Forest) → depth (route key t f) ≤ max (depth t) (depth_forest f)
unfolding depth route
depth-route key t done = omega arith
depth-route key t (after k u f) = elim (Bool-cases (int_lt key k)) [
  | inl before ↦ rw before (omega arith)
  | inr from ↦ rw from (omega (arith, depth-route key u f))
]

pub route-Stored :
    (v : ℕ → Option (List ℕ)) (key : ℤ) (t : Tree) (f : Forest)
    → Stored v t
    → StoredForest v f
    → Stored v (route key t f)
unfolding Stored route
route-Stored v key t done s r = s
route-Stored v key t (after k u f) s r = elim (Bool-cases (int_lt key k)) [
  | inl before ↦ rw before s
  | inr from ↦ rw from (route-Stored v key u f r.0 r.1)
]

pub route-IsRouted :
    (key : ℤ) (t : Tree) (f : Forest) → IsRouted t → Separates t f → IsRouted (route key t f)
unfolding IsRouted route
route-IsRouted key t done r s = r
route-IsRouted key t (after k u f) r s = elim (Bool-cases (int_lt key k)) [
  | inl before ↦ rw before r
  | inr from ↦ rw from (route-IsRouted key u f s.3 s.4)
]
