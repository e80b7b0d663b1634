-- ===== src/Tests/BPlusTree.antt =====
-- A root with two leaves, read by a thread without a transaction.
use flintdb.Prelude.{
  zero, suc, ◌<◌, false, true, arith, ℕ, ◌≡◌, refl, Option, none, some, [], ◌∷◌, ◌==◌,
  if◌then◌else◌, nat_key, has,
}
use flintdb.Prelude.Int.{pos, negsuc, pattern64, value64, int_eq, int_lt}
use flintdb.Bytes.{read_at, write_at, read_bytes, write_bytes, to_bytes, from_bytes}
use flintdb.Storage.Page.{Page, zeroed}
use flintdb.Storage.DiskManager.{read_page}
use flintdb.Storage.BufferPool.{BufferPool, fetch_page}
use flintdb.Storage.BufferPool.Coherent.{view, on_disk, IsCoherent}
use flintdb.Txn.LockManager.{empty}
use flintdb.Txn.TransactionManager.{TransactionManager}
use flintdb.Txn.PageAccess.{Call, gave, stopped, lock_page, fetch}
use flintdb.Txn.HeapFile.{at_page}
use flintdb.Index.Node.{
  LeafNode, InternalNode, serialize_internal, write_children, no_page_id, read_page_type,
  start_node, write_entries, serialize_leaf, read_entries, deserialize_leaf, deserialize_internal,
  read_children, serialize_header, deserialize_header_root_page_id, upper_bound,
}
use flintdb.Index.BPlusTree.{
  BPlusTree, get_root_page_id, lock_root, height_from, height, values_at, search_from, search,
  leftmost_leaf, chain_from, range_scan_all,
}
use flintdb.Index.BPlusTree.Contents.{
  Tree, leaf, node, done, after, keys_of, ids_of, values_in, EachKey, IsRouted,
}
use flintdb.Index.BPlusTree.Stored.{Stored, depth}
use flintdb.Index.BPlusTree.Search.{Sees, Searches, IsIndex, search_lem}

program : Unit {0}
unfolding read_at write_at read_bytes write_bytes to_bytes from_bytes zeroed read_page fetch_page
    lock_page fetch pattern64 value64 int_eq int_lt read_page_type start_node write_entries
    serialize_leaf read_entries deserialize_leaf deserialize_internal read_children serialize_header
    deserialize_header_root_page_id upper_bound get_root_page_id lock_root height_from height
    values_at search_from search leftmost_leaf chain_from serialize_internal write_children keys_of
    ids_of values_in EachKey IsRouted Stored depth range_scan_all has
program = tt

abbrev lower : LeafNode
lower = record { page_id = 2; next_leaf = 3; keys = negsuc 0 ∷ []; values = at_page 0 1 ∷ [] }

abbrev upper : LeafNode
upper = record {
  page_id = 3;
  next_leaf = no_page_id;
  keys = pos 4 ∷ pos 4 ∷ [];
  values = at_page 2 0 ∷ at_page 2 7 ∷ [];
}

abbrev root : InternalNode
root = record { page_id = 1; keys = pos 4 ∷ []; children = 2 ∷ 3 ∷ [] }

abbrev cached_page : ℕ → Option Page
cached_page zero = some (record { buf = serialize_header 1 })
cached_page (suc zero) = some (record { buf = serialize_internal root })
cached_page (suc (suc zero)) = some (record { buf = serialize_leaf lower })
cached_page (suc (suc (suc zero))) = some (record { buf = serialize_leaf upper })
cached_page n = none

abbrev pool : BufferPool
pool = record {
  disk_manager = record { pages = λ p. []; next_page_id = 4 };
  pages = cached_page;
  dirty = 0 ∷ 1 ∷ 2 ∷ 3 ∷ [];
  observers_by_thread = λ t. none;
}

abbrev manager : TransactionManager
manager = record {
  log_manager = record {
    file = [];
    synced = [];
    next_lsn = 1;
    records_on_open = [];
    durable_lsn = 0;
  };
  lock_manager = empty;
  buffer_pools = λ o. if o == 7 then some pool else none;
  active_txns = [];
  next_txn_id = 1;
  current_txn = λ t. none;
}

abbrev tree : BPlusTree
tree = record { object_id = 7 }

abbrev result {ℓ} : {A : Type ℓ} → Call A → Option A
result (gave a m) = some a
result (stopped why m) = none

runs :
    (result (search 1 tree (pos 4) manager) ≡ some (at_page 2 0 ∷ at_page 2 7 ∷ []))
    × (result (search 1 tree (pos 5) manager) ≡ some [])
    × (result (height 1 tree manager) ≡ some 2)
    × (result (range_scan_all 1 tree manager)
        ≡ some ((negsuc 0, at_page 0 1) ∷ (pos 4, at_page 2 0) ∷ (pos 4, at_page 2 7) ∷ []))
unfolding program
runs = (refl, refl, refl, refl)

pool-IsCoherent : IsCoherent pool
unfolding program
pool-IsCoherent = record { exists = in_file; matches = is_clean; is_cached = dirty_page }
  where
    in_file : (pid : ℕ) (page : Page) → cached_page pid ≡ some page → pid < 4
    in_file zero page e = omega arith
    in_file (suc zero) page e = omega arith
    in_file (suc (suc zero)) page e = omega arith
    in_file (suc (suc (suc zero))) page e = omega arith
    in_file (suc (suc (suc (suc n)))) page e = absurd (cc)

    is_clean :
        (pid : ℕ) (page : Page)
        → cached_page pid ≡ some page
        → has pid pool.dirty ≡ false
        → on_disk pool pid ≡ some page.buf
    is_clean zero page e h = absurd (ground (arith, h))
    is_clean (suc zero) page e h = absurd (ground (arith, h))
    is_clean (suc (suc zero)) page e h = absurd (ground (arith, h))
    is_clean (suc (suc (suc zero))) page e h = absurd (ground (arith, h))
    is_clean (suc (suc (suc (suc n)))) page e h = absurd (cc)

    dirty_page :
        (pid : ℕ) → has pid pool.dirty ≡ true → (page : Page) × (cached_page pid ≡ some page)
    dirty_page zero h = (_, refl)
    dirty_page (suc zero) h = (_, refl)
    dirty_page (suc (suc zero)) h = (_, refl)
    dirty_page (suc (suc (suc zero))) h = (_, refl)
    dirty_page (suc (suc (suc (suc n)))) h = absurd (ground (arith, h))

abbrev contents : Tree
contents = node 1 (leaf 2 lower) (after (pos 4) (leaf 3 upper) done)

contents-IsIndex : IsIndex (view pool) contents
unfolding program
contents-IsIndex = record {
  header = record { buf = serialize_header 1 };
  is_header = refl;
  leads = refl;
  exists = refl;
  stored = (
    record { buf = serialize_internal root },
    refl,
    refl,
    refl,
    refl,
    (record { buf = serialize_leaf lower }, refl, refl, refl),
    ((record { buf = serialize_leaf upper }, refl, refl, refl), tt),
  );
  routed = (tt, ((refl, tt), (refl, (refl, tt)), tt, tt, tt));
  shallow = omega arith;
}

manager-Sees : Sees 7 (view pool) manager
manager-Sees = record { pool = pool; is_pool = refl; coherent = pool-IsCoherent; seen = λ q. refl }

search_lem_example :
    Searches 1 manager 7 (view pool) (values_in (pos 4) contents) (search 1 tree (pos 4) manager)
search_lem_example =
    search_lem 1 tree (view pool) (pos 4) contents manager contents-IsIndex manager-Sees
