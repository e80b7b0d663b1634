-- ===== src/Tests/HeapFile.antt =====
-- A heap file of one empty page, as in tests/test_heap_file.cpp.
use flintdb.Prelude.{
  ℕ, zero, suc, ◌≡◌, refl, ap, true, none, some, [], ◌∷◌, arith, ◌==◌, if◌then◌else◌, has, insert,
  nat_key,
}
use flintdb.Storage.Page.{Page, new_page, init_heap_page}
use flintdb.Storage.Page.WellFormed.{IsWellFormed, init_heap_page-IsWellFormed}
use flintdb.Storage.DiskManager.{DiskManager, allocate_page, read_page}
use flintdb.Storage.BufferPool.{BufferPool, open_pool, mark_dirty, new_pool_page, new_heap_page}
use flintdb.Storage.BufferPool.Coherent.{view, IsCoherent}
use flintdb.Storage.BufferPool.Reach.{start, step, allocates_heap_page, Reach-IsCoherent}
use flintdb.Txn.LockManager.{empty}
use flintdb.Txn.TransactionManager.{TransactionManager}
use flintdb.Txn.HeapFile.{HeapFile, at_page, get_row, insert_row, delete_row}
use flintdb.Txn.HeapFile.Rows.{IsHeap}
use flintdb.Txn.HeapFile.GetRow.{Gets, get_row_lem}
use flintdb.Txn.HeapFile.Delete.{Deletes, delete_row_lem}
use flintdb.Txn.HeapFile.PutRow.{Inserts}
use flintdb.Txn.HeapFile.Insert.{insert_row_lem}

program : Unit {0}
unfolding open_pool mark_dirty new_pool_page new_heap_page allocate_page read_page has insert
program = tt

abbrev file : DiskManager
file = record { pages = λ p. []; next_page_id = 0 }

abbrev pool : BufferPool
pool = (new_heap_page 1 (open_pool file)).0

pool-IsCoherent : IsCoherent pool
unfolding program
pool-IsCoherent =
    Reach-IsCoherent file pool (step (start refl) (allocates_heap_page 1 (omega arith) refl))

abbrev manager : TransactionManager
manager = record {
  log_manager = record {
    file = [];
    synced = [];
    next_lsn = 1;
    records_on_open = [];
    durable_lsn = 0;
  };
  lock_manager = empty;
  buffer_pools = λ o. if o == 7 then some pool else none;
  active_txns = [];
  next_txn_id = 10;
  current_txn = λ thread. if thread == 1 then some 9 else none;
}

abbrev heap : HeapFile
heap = record { object_id = 7; page_ids = 0 ∷ [] }

blank : (pid : ℕ) → pid ≡ 0 → (page : Page) × (view pool pid ≡ some page.buf) × IsWellFormed page
unfolding program
blank zero e =
    (init_heap_page new_page 0, ap (λ x. some x) refl, (init_heap_page-IsWellFormed new_page 0).0)
blank (suc pid) e = absurd (omega (arith, e))

own_pages :
    (pid : ℕ)
    → has pid heap.page_ids ≡ true
    → (page : Page) × (view pool pid ≡ some page.buf) × IsWellFormed page
unfolding program
own_pages pid owned = blank pid (ground (arith, owned))

abbrev heap-IsHeap : IsHeap manager heap
heap-IsHeap = record { pool = pool; is_pool = refl; coherent = pool-IsCoherent; whole = own_pages }

get_row_lem_example : Gets 1 manager heap (at_page 0 3) (get_row 1 heap (at_page 0 3) manager)
get_row_lem_example = get_row_lem 1 manager heap (at_page 0 3) heap-IsHeap

delete_row_lem_example :
    Deletes 1 manager heap (at_page 0 3) (delete_row 1 heap (at_page 0 3) manager)
delete_row_lem_example = delete_row_lem 1 manager heap (at_page 0 3) heap-IsHeap

insert_row_lem_example :
    Inserts 1 manager heap (72 ∷ 105 ∷ []) (insert_row 1 heap (72 ∷ 105 ∷ []) manager)
unfolding program
insert_row_lem_example = insert_row_lem 1 manager heap (72 ∷ 105 ∷ []) heap-IsHeap (omega arith)
