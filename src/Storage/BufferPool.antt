-- ===== src/Storage/BufferPool.antt =====
-- src/storage/buffer_pool.h and buffer_pool.cpp: the cached pages of one file and the set of those that
-- differ from it. Every method runs under the class's mutex, so a method is one step. `none` is an
-- exception that leaves the pool as it was.
pub mod Coherent
pub mod Steps
pub mod Flush
pub mod FlushAll
pub mod Reach
use flintdb.Prelude.{
  ℕ, Bool, true, false, ◌&&◌, Option, none, some, List, [], ◌∷◌, ◌==◌, if◌then◌else◌, nat_key, has,
  insert, erase,
}
use flintdb.Storage.Page.{Page, new_page, init_heap_page}
use flintdb.Storage.DiskManager.{
  DiskManager, allocate_page, read_page, write_page, num_pages, reset_file,
}

-- An observer is named by the transaction that its closure notifies, a thread by a number.
pub record BufferPool : Type 0 where
  pub disk_manager : DiskManager
  pub pages : ℕ → Option Page
  pub dirty : List ℕ
  pub observers_by_thread : ℕ → Option ℕ

unfoldable pub open_pool : DiskManager → BufferPool
open_pool d = record {
  disk_manager = d;
  pages = λ _. none;
  dirty = [];
  observers_by_thread = λ _. none;
}

-- `pages_[pid] = page`, and what a client writes through a `Page*`.
abbrev pub set_page : BufferPool → ℕ → Page → BufferPool
set_page b pid page = record b { pages = λ q. if q == pid then some page else b.pages q }

-- MarkDirty: the pool, and the observer of the calling thread, which is called with the page.
unfoldable pub mark_dirty : ℕ → BufferPool → ℕ → BufferPool × Option ℕ
mark_dirty thread b pid = (record b { dirty = insert pid b.dirty }, b.observers_by_thread thread)

-- NewPage: the pool, the id and the observer that was called.
unfoldable pub new_pool_page : ℕ → BufferPool → BufferPool × ℕ × Option ℕ
new_pool_page thread b =
    let (d, pid) = allocate_page b.disk_manager in
    let (b', observer) =
      mark_dirty thread (set_page (record b { disk_manager = d }) pid new_page) pid in
    (b', pid, observer)

unfoldable pub new_heap_page : ℕ → BufferPool → BufferPool × ℕ × Option ℕ
new_heap_page thread b =
    let (b', pid, observer) = new_pool_page thread b in
    (set_page b' pid (init_heap_page new_page pid), pid, observer)

unfoldable pub fetch_page : BufferPool → ℕ → Option (Page × BufferPool)
fetch_page b pid = elim (b.pages pid) [
  | some page ↦ some (page, b)
  | none ↦ elim (read_page b.disk_manager pid) [
    | none ↦ none
    | some bytes ↦ some (record { buf = bytes }, set_page b pid (record { buf = bytes }))
  ]
]

-- A flush writes what it can before an exception of WritePage.
pub data FlushResult : Type 0 where
  flushed : BufferPool → FlushResult
  threw : BufferPool → FlushResult

-- `disk_manager_->WritePage(pid, it->second->Data())`
unfoldable pub write_back : BufferPool → ℕ → Page → Option BufferPool
write_back b pid page = elim (write_page b.disk_manager pid page.buf) [
  | none ↦ none
  | some d ↦ some (record b { disk_manager = d })
]

-- The loop of FlushAll, over the pages that were dirty.
unfoldable pub flush_each : BufferPool → List ℕ → FlushResult
flush_each b [] = flushed (record b { dirty = [] })
flush_each b (pid ∷ pids) = elim (b.pages pid) [
  | none ↦ flush_each b pids
  | some page ↦ elim (write_back b pid page) [ none ↦ threw b | some b' ↦ flush_each b' pids ]
]

unfoldable pub flush_all : BufferPool → FlushResult
flush_all b = flush_each b b.dirty

-- The page to write, if the id is cached and dirty.
abbrev pub to_flush : BufferPool → ℕ → Option Page
to_flush b pid = if has pid b.dirty then b.pages pid else none

unfoldable pub flush_pages : BufferPool → List ℕ → FlushResult
flush_pages b [] = flushed b
flush_pages b (pid ∷ pids) = elim (to_flush b pid) [
  | none ↦ flush_pages b pids
  | some page ↦ elim (write_back b pid page) [
    | none ↦ threw b
    | some b' ↦ flush_pages (record b' { dirty = erase pid b'.dirty }) pids
  ]
]

unfoldable pub num_pages_on_disk : BufferPool → ℕ
num_pages_on_disk b = num_pages b.disk_manager

unfoldable pub reset_all : BufferPool → BufferPool
reset_all b = record b { disk_manager = reset_file b.disk_manager; pages = λ _. none; dirty = [] }

unfoldable pub set_active_transaction_observer : ℕ → BufferPool → ℕ → BufferPool
set_active_transaction_observer thread b observer = record b {
  observers_by_thread = λ t. if t == thread then some observer else b.observers_by_thread t;
}

unfoldable pub clear_active_transaction_observer : ℕ → BufferPool → BufferPool
clear_active_transaction_observer thread b = record b {
  observers_by_thread = λ t. if t == thread then none else b.observers_by_thread t;
}

unfoldable pub discard_page : BufferPool → ℕ → Option BufferPool
discard_page b pid = elim (b.pages pid) [
  | none ↦ some b
  | some page ↦ elim (read_page b.disk_manager pid) [
    | none ↦ none
    | some bytes ↦
        some (record (set_page b pid (record { buf = bytes })) { dirty = erase pid b.dirty })
  ]
]
