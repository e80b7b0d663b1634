-- ===== src/Index/BPlusTree/Search.antt =====
-- btree.cpp: Search finds every value of a key.
use flintdb.Prelude.{ℕ, zero, suc, ◌≤◌, ◌≡◌, refl, sym, ◌∙◌, false, Option, some, List, ◌==◌, arith}
use flintdb.Prelude.Int.{ℤ}
use flintdb.Storage.Page.{Page}
use flintdb.Storage.BufferPool.{BufferPool}
use flintdb.Storage.BufferPool.Coherent.{view, IsCoherent}
use flintdb.Txn.LockManager.{LockManager, shared}
use flintdb.Txn.TransactionManager.{TransactionManager, set_pool}
use flintdb.Txn.PageAccess.{Stop, Call, gave, stopped, Op, ◌>>=◌, ◌>>◌, lock_page, fetch}
use flintdb.Txn.HeapFile.{Rid}
use flintdb.Txn.HeapFile.Rows.{
  Refusal, Locks, got, refused, lock_page-Locks, fetch_seen, set_pool_same,
}
use flintdb.Txn.HeapFile.Access.{with_locks, gave_then}
use flintdb.Index.Node.{no_page_id, root_header_page_id, deserialize_header_root_page_id}
use flintdb.Index.BPlusTree.{
  BPlusTree, max_traversal_steps, get_root_page_id, lock_root, lock_and_fetch, values_at,
  search_from, search,
}
use flintdb.Index.BPlusTree.Contents.{
  Tree, leaf, node, root_id, values_in, IsRouted, route, route-root_id, values_in-route,
}
use flintdb.Index.BPlusTree.Stored.{Stored, depth, depth-route, route-Stored, route-IsRouted}

-- The pages that clients see, on the coherent pool of an object.
pub record Sees (o : ℕ) (v : ℕ → Option (List ℕ)) (m : TransactionManager) : Type 0 where
  pub pool : BufferPool
  pub is_pool : m.buffer_pools o ≡ some pool
  pub coherent : IsCoherent pool
  pub seen : (q : ℕ) → view pool q ≡ v q

-- How Search ends.
pub data Searches (thread : ℕ) (m : TransactionManager) (o : ℕ) (v : ℕ → Option (List ℕ))
    (values : List Rid) : Call (List Rid) → Type 0 where
  finds : {m' : TransactionManager} → Sees o v m' → Searches thread m o v values (gave values m')
  not_locked :
      {why : Stop} {m' : TransactionManager} (t : ℕ)
      → m.current_txn thread ≡ some t
      → Refusal why
      → Sees o v m'
      → Searches thread m o v values (stopped why m')

with_locks-Sees :
    {o : ℕ} {v : ℕ → Option (List ℕ)} (m : TransactionManager) (locks : LockManager)
    → Sees o v m
    → Sees o v (with_locks m locks)
with_locks-Sees m locks w = record {
  pool = w.pool;
  is_pool = w.is_pool;
  coherent = w.coherent;
  seen = w.seen;
}

-- The same transaction on the thread.
abbrev SameThread : ℕ → TransactionManager → TransactionManager → Type 0
SameThread thread m m' = m'.current_txn thread ≡ m.current_txn thread

-- After a fetch of a page that clients see.
fetch_then :
    {o : ℕ} {v : ℕ → Option (List ℕ)} (P : Call (List Rid) → Type 0) (thread pid : ℕ)
    (m : TransactionManager) (page : Page) (next : Page → Op (List Rid))
    → Sees o v m
    → v pid ≡ some page.buf
    → ((m' : TransactionManager) → Sees o v m' → SameThread thread m m' → P (next page m'))
    → P ((fetch o pid >>= next) m)
fetch_then {o} P thread pid m page next w e step =
    let (b', f, done_with, c) =
      fetch_seen o pid m w.pool page w.is_pool w.coherent (w.seen pid ∙ e) in
    rw (f, ◌>>=◌)
      (step (set_pool m o b')
        (record {
          pool = b';
          is_pool = set_pool_same m o b';
          coherent = c;
          seen = λ q. done_with.kept q ∙ w.seen q;
        })
        refl)

module _ (thread : ℕ) (bt : BPlusTree) (v : ℕ → Option (List ℕ)) (key : ℤ) where
  lock_then :
      (pid : ℕ) (m : TransactionManager) (values : List Rid) (next : Op (List Rid))
      → Sees bt.object_id v m
      → ((m' : TransactionManager)
          → Sees bt.object_id v m'
          → SameThread thread m m'
          → Searches thread m bt.object_id v values (next m'))
      → Searches thread m bt.object_id v values
          ((lock_page thread bt.object_id pid shared >> next) m)
  lock_then pid m values next w step = go (lock_page-Locks thread bt.object_id pid shared m)
    where
      go :
          {r : Call (Unit {0})}
          → Locks thread m r
          → Searches thread m bt.object_id v values
              (elim r [ gave a m' ↦ next m' | stopped why m' ↦ stopped why m' ])
      go (got locks) = step (with_locks m locks) (with_locks-Sees m locks w) refl
      go (refused {why} locks t e r) = not_locked t e r (with_locks-Sees m locks w)

  read_then :
      (pid : ℕ) (m : TransactionManager) (values : List Rid) (page : Page)
      (next : Page → Op (List Rid))
      → Sees bt.object_id v m
      → v pid ≡ some page.buf
      → ((m' : TransactionManager)
          → Sees bt.object_id v m'
          → SameThread thread m m'
          → Searches thread m bt.object_id v values (next page m'))
      → Searches thread m bt.object_id v values ((lock_and_fetch thread bt pid >>= next) m)
  read_then pid m values page next w e step = go (lock_page-Locks thread bt.object_id pid shared m)
    where
      go :
          {r : Call (Unit {0})}
          → Locks thread m r
          → Searches thread m bt.object_id v values
              ((((λ i. r) >> fetch bt.object_id pid) >>= next) m)
      go (got locks) =
          fetch_then (Searches thread m bt.object_id v values) thread pid (with_locks m locks) page
            next (with_locks-Sees m locks w) e step
      go (refused {why} locks t e' r) = not_locked t e' r (with_locks-Sees m locks w)

  -- A later state of the same thread.
  Searches-later :
      (m m' : TransactionManager) (values : List Rid) (r : Call (List Rid))
      → SameThread thread m m'
      → Searches thread m' bt.object_id v values r
      → Searches thread m bt.object_id v values r
  Searches-later m m' values (gave _ _) same (finds w) = finds w
  Searches-later m m' values (stopped _ _) same (not_locked t e r w) =
      not_locked t (sym same ∙ e) r w

  search_from-Searches :
      (steps : ℕ) (tree : Tree) (m : TransactionManager)
      → depth tree ≤ steps
      → Stored v tree
      → IsRouted tree
      → Sees bt.object_id v m
      → Searches thread m bt.object_id v
          (values_in key tree)
          (search_from thread bt key (root_id tree) steps m)
  unfolding search_from depth Stored IsRouted values_in
  search_from-Searches zero (leaf pid l) m d s r w = absurd (omega (arith, d))
  search_from-Searches zero (node pid t f) m d s r w = absurd (omega (arith, d))
  search_from-Searches (suc steps) (leaf pid l) m d (page, seen, kind, same) r w =
      read_then pid m (values_at key l.keys l.values) page _ w seen
        (λ m' w' thread_same. rw (kind, same) (finds w'))
  search_from-Searches (suc steps) (node pid t f) m d (page, seen, kind, keys, children, st, sf) r
        w =
      read_then pid m (values_in key (node pid t f)) page _ w seen (λ m' w' thread_same.
        rw (kind, keys, children, route-root_id key t f, values_in-route key t f r.1)
          (Searches-later m m' _ _ thread_same (
            search_from-Searches steps (route key t f) m' (omega (arith, d, depth-route key t f))
              (route-Stored v key t f st sf) (route-IsRouted key t f r.0 r.1) w')))

get_root_page_id-Sees :
    (thread : ℕ) (bt : BPlusTree) (v : ℕ → Option (List ℕ)) (m : TransactionManager) (header : Page)
    → Sees bt.object_id v m
    → v root_header_page_id ≡ some header.buf
    → (m' : TransactionManager) × (get_root_page_id bt m
        ≡ gave (deserialize_header_root_page_id header.buf) m')
      × Sees bt.object_id v m'
      × SameThread thread m m'
unfolding get_root_page_id
get_root_page_id-Sees thread bt v m header w e =
    let (b', f, done_with, c) =
      fetch_seen bt.object_id root_header_page_id m w.pool header w.is_pool w.coherent
        (w.seen root_header_page_id ∙ e) in
    (
      set_pool m bt.object_id b',
      rw (f, ◌>>=◌) refl,
      record {
        pool = b';
        is_pool = set_pool_same m bt.object_id b';
        coherent = c;
        seen = λ q. done_with.kept q ∙ w.seen q;
      },
      refl,
    )

-- The pages of an index hold a tree with routing separators, of at most kMaxTraversalSteps levels, and the
-- header page leads to its root.
pub record IsIndex (v : ℕ → Option (List ℕ)) (tree : Tree) : Type 0 where
  pub header : Page
  pub is_header : v root_header_page_id ≡ some header.buf
  pub leads : deserialize_header_root_page_id header.buf ≡ root_id tree
  pub exists : (root_id tree == no_page_id) ≡ false
  pub stored : Stored v tree
  pub routed : IsRouted tree
  pub shallow : depth tree ≤ max_traversal_steps

-- Where the pages hold a tree whose separators have smaller keys before them and no smaller keys after
-- them, of at most 10000 levels, Search returns every value that stands beside the key in any leaf of the
-- tree, in the order of the leaves, and changes no page. It stops only where the calling thread has a
-- transaction that waits or dies in AcquireLock.
pub search_lem :
    (thread : ℕ) (bt : BPlusTree) (v : ℕ → Option (List ℕ)) (key : ℤ) (tree : Tree)
    (m : TransactionManager)
    → IsIndex v tree
    → Sees bt.object_id v m
    → Searches thread m bt.object_id v (values_in key tree) (search thread bt key m)
unfolding search lock_root
search_lem thread bt v key tree m x w =
    lock_then thread bt v key root_header_page_id m (values_in key tree) _ w (λ m1 w1 same1.
      let (m2, e, w2, same2) = get_root_page_id-Sees thread bt v m1 x.header w1 x.is_header in
      gave_then (Searches thread m bt.object_id v (values_in key tree)) (get_root_page_id bt) _ m1 e
        (rw (x.leads, x.exists)
          (Searches-later thread bt v key m m2 (values_in key tree) _ (same2 ∙ same1) (
            search_from-Searches thread bt v key max_traversal_steps tree m2 x.shallow x.stored
              x.routed w2))))
