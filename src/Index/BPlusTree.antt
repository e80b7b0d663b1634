-- ===== src/Index/BPlusTree.antt =====
-- src/index/btree.h and btree.cpp: the tree over the pages of its object, and the calls that read it. The
-- page that an exception of FetchPage or a round of AcquireLock stops at is a `Stop`.
pub mod Contents
pub mod Stored
pub mod Search
use flintdb.Prelude.{ℕ, zero, suc, ◌+◌, ◌==◌, Bool, List, [], ◌∷◌, ◌++◌, get_or, if◌then◌else◌}
use flintdb.Prelude.Int.{ℤ, int_eq}
use flintdb.Storage.Page.{Page}
use flintdb.Txn.LockManager.{LockMode, shared}
use flintdb.Txn.PageAccess.{
  too_many_steps, Op, ◌>>=◌, ◌>>◌, give, stop, lock_page, fetch, store, allocate, flush,
  pages_on_disk,
}
use flintdb.Txn.HeapFile.{Rid}
use flintdb.Index.Node.{
  no_page_id, root_header_page_id, type_leaf, read_page_type, deserialize_leaf,
  deserialize_internal, serialize_header, deserialize_header_root_page_id, upper_bound,
}

pub record BPlusTree : Type 0 where
  pub object_id : ℕ

abbrev pub max_traversal_steps : ℕ
max_traversal_steps = 10000

abbrev pub is_leaf : Page → Bool
is_leaf page = read_page_type page.buf == type_leaf

-- The constructor, which writes the header page of a new file at once.
unfoldable pub open_tree : ℕ → ℕ → Op BPlusTree
open_tree thread o = do
  existing ← pages_on_disk o
  if existing == 0
      then (do
        header_pid ← allocate thread o
        store thread o header_pid (record { buf = serialize_header no_page_id })
        flush o (header_pid ∷ [])
        give (record { object_id = o }))
      else give (record { object_id = o })

unfoldable pub get_root_page_id : BPlusTree → Op ℕ
get_root_page_id tree = do
  page ← fetch tree.object_id root_header_page_id
  give (deserialize_header_root_page_id page.buf)

unfoldable pub set_root_page_id : ℕ → BPlusTree → ℕ → Op (Unit {0})
set_root_page_id thread tree page_id = do
  page ← fetch tree.object_id root_header_page_id
  store thread tree.object_id root_header_page_id (record { buf = serialize_header page_id })

unfoldable pub is_empty : BPlusTree → Op Bool
is_empty tree = do root ← get_root_page_id tree; give (root == no_page_id)

unfoldable pub lock_root : ℕ → BPlusTree → LockMode → Op (Unit {0})
lock_root thread tree mode = lock_page thread tree.object_id root_header_page_id mode

abbrev pub lock_and_fetch : ℕ → BPlusTree → ℕ → Op Page
lock_and_fetch thread tree pid = do
  lock_page thread tree.object_id pid shared
  fetch tree.object_id pid

-- `node.children.front()`
abbrev pub first_child : Page → ℕ
first_child page = get_or (deserialize_internal page.buf).children 0 0

-- Height's loop, with the steps that it may still take.
unfoldable pub height_from : ℕ → BPlusTree → ℕ → Page → ℕ → Op ℕ
height_from thread tree h page zero = if is_leaf page then give h else stop too_many_steps
height_from thread tree h page (suc steps) = if is_leaf page then give h else (do
  next ← lock_and_fetch thread tree (first_child page)
  height_from thread tree (h + 1) next steps)

unfoldable pub height : ℕ → BPlusTree → Op ℕ
height thread tree = do
  lock_root thread tree shared
  root ← get_root_page_id tree
  if root == no_page_id then give 0 else (do
    page ← lock_and_fetch thread tree root
    height_from thread tree 1 page max_traversal_steps)

-- The values of a leaf that stand beside a key.
unfoldable pub values_at : ℤ → List ℤ → List Rid → List Rid
values_at key [] values = []
values_at key (k ∷ keys) [] = []
values_at key (k ∷ keys) (v ∷ values) =
    let rest = values_at key keys values in if int_eq k key then v ∷ rest else rest

-- The child that Search goes to.
abbrev pub routed_child : ℤ → Page → ℕ
routed_child key page =
    let node = deserialize_internal page.buf in get_or node.children (upper_bound node.keys key) 0

unfoldable pub search_from : ℕ → BPlusTree → ℤ → ℕ → ℕ → Op (List Rid)
search_from thread tree key cur zero = stop too_many_steps
search_from thread tree key cur (suc steps) = do
  page ← lock_and_fetch thread tree cur
  if is_leaf page
      then (let leaf = deserialize_leaf page.buf in give (values_at key leaf.keys leaf.values))
      else search_from thread tree key (routed_child key page) steps

unfoldable pub search : ℕ → BPlusTree → ℤ → Op (List Rid)
search thread tree key = do
  lock_root thread tree shared
  root ← get_root_page_id tree
  if root == no_page_id then give [] else search_from thread tree key root max_traversal_steps

-- RangeScanAll's way down to the leftmost leaf.
unfoldable pub leftmost_leaf : ℕ → BPlusTree → Page → ℕ → Op Page
leftmost_leaf thread tree page zero = if is_leaf page then give page else stop too_many_steps
leftmost_leaf thread tree page (suc steps) = if is_leaf page then give page else (do
  next ← lock_and_fetch thread tree (first_child page)
  leftmost_leaf thread tree next steps)

abbrev pub entries : List ℤ → List Rid → List (ℤ × Rid)
entries [] values = []
entries (k ∷ keys) [] = []
entries (k ∷ keys) (v ∷ values) = (k, v) ∷ entries keys values

-- RangeScanAll's walk along the leaves.
unfoldable pub chain_from : ℕ → BPlusTree → Page → ℕ → Op (List (ℤ × Rid))
chain_from thread tree page zero = stop too_many_steps
chain_from thread tree page (suc steps) =
    let leaf = deserialize_leaf page.buf in
    if leaf.next_leaf == no_page_id then give (entries leaf.keys leaf.values) else (do
      next ← lock_and_fetch thread tree leaf.next_leaf
      rest ← chain_from thread tree next steps
      give (entries leaf.keys leaf.values ++ rest))

unfoldable pub range_scan_all : ℕ → BPlusTree → Op (List (ℤ × Rid))
range_scan_all thread tree = do
  lock_root thread tree shared
  root ← get_root_page_id tree
  if root == no_page_id then give [] else (do
    page ← lock_and_fetch thread tree root
    leaf ← leftmost_leaf thread tree page max_traversal_steps
    chain_from thread tree leaf max_traversal_steps)
