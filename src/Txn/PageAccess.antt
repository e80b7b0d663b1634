-- ===== src/Txn/PageAccess.antt =====
-- The calls that storage/heap_file.cpp and index/btree.cpp make for a page: LockPage, which both define
-- alike, and FetchPage, NewPage, MarkDirty and the stores through a `Page*`, on the pool of an object.
use flintdb.Prelude.{List, ℕ, none, some}
use flintdb.Storage.Page.{Page}
use flintdb.Storage.BufferPool.{
  flushed, threw, flush_pages, set_page, new_pool_page, new_heap_page, fetch_page,
}
use flintdb.Txn.LockManager.{LockMode, LockManager, Outcome, acquire_step}
use flintdb.Txn.TransactionManager.{TransactionManager, set_pool, notified, mark_page_dirty}

-- Why a call does not return: AcquireLock waits or throws, FetchPage throws, or the caller does.
pub data Stop : Type 0 where
  waits dies no_page bad_argument broken too_many_steps : Stop

pub data Call {ℓ} (A : Type ℓ) : Type ℓ where
  gave : A → TransactionManager → Call A
  stopped : Stop → TransactionManager → Call A

abbrev pub Op {ℓ} : Type ℓ → Type ℓ
Op A = TransactionManager → Call A

infixl 5 ◌>>=◌ ◌>>◌
abbrev pub ◌>>=◌ {ℓ κ} : {A : Type ℓ} {B : Type κ} → Op A → (A → Op B) → Op B
(op >>= next) m = elim (op m) [ gave a m' ↦ next a m' | stopped why m' ↦ stopped why m' ]

abbrev pub ◌>>◌ {ℓ κ} : {A : Type ℓ} {B : Type κ} → Op A → Op B → Op B
op >> next = op >>= (λ a. next)

abbrev pub give {ℓ} : {A : Type ℓ} → A → Op A
give a m = gave a m

abbrev pub stop {ℓ} : {A : Type ℓ} → Stop → Op A
stop why m = stopped why m

abbrev pub after_round : TransactionManager → LockManager → Outcome → Call (Unit {0})
after_round m locks Outcome.granted = gave tt (record m { lock_manager = locks })
after_round m locks Outcome.waits = stopped waits (record m { lock_manager = locks })
after_round m locks Outcome.dies = stopped dies (record m { lock_manager = locks })

-- A thread without a transaction locks nothing. Where the round would wait, the call stops there.
unfoldable pub lock_page : ℕ → ℕ → ℕ → LockMode → Op (Unit {0})
lock_page thread o pid mode m = elim (m.current_txn thread) [
  | none ↦ gave tt m
  | some t ↦
      let (locks, outcome) =
        acquire_step m.lock_manager t (record { object_id = o; page_id = pid }) mode in
      after_round m locks outcome
]

unfoldable pub fetch : ℕ → ℕ → Op Page
fetch o pid m = elim (m.buffer_pools o) [
  | none ↦ stopped no_page m
  | some b ↦ elim (fetch_page b pid) [
    | none ↦ stopped no_page m
    | some (page, b') ↦ gave page (set_pool m o b')
  ]
]

-- A store through the pointer to a cached page, and MarkDirty.
unfoldable pub store : ℕ → ℕ → ℕ → Page → Op (Unit {0})
store thread o pid page m = elim (m.buffer_pools o) [
  | none ↦ stopped no_page m
  | some b ↦ gave tt (mark_page_dirty thread (set_pool m o (set_page b pid page)) o pid)
]

unfoldable pub allocate : ℕ → ℕ → Op ℕ
allocate thread o m = elim (m.buffer_pools o) [
  | none ↦ stopped no_page m
  | some b ↦
      let (b', pid, observer) = new_pool_page thread b in
      gave pid (notified (set_pool m o b') o pid observer)
]

unfoldable pub allocate_heap_page : ℕ → ℕ → Op ℕ
allocate_heap_page thread o m = elim (m.buffer_pools o) [
  | none ↦ stopped no_page m
  | some b ↦
      let (b', pid, observer) = new_heap_page thread b in
      gave pid (notified (set_pool m o b') o pid observer)
]

-- NumPagesOnDisk
unfoldable pub pages_on_disk : ℕ → Op ℕ
pages_on_disk o m = elim (m.buffer_pools o) [
  | none ↦ stopped no_page m
  | some b ↦ gave (b.disk_manager.next_page_id) m
]

-- FlushPages on the pool of an object.
unfoldable pub flush : ℕ → List ℕ → Op (Unit {0})
flush o pids m = elim (m.buffer_pools o) [
  | none ↦ stopped no_page m
  | some b ↦ elim (flush_pages b pids) [
    | flushed b' ↦ gave tt (set_pool m o b')
    | threw b' ↦ stopped no_page (set_pool m o b')
  ]
]
