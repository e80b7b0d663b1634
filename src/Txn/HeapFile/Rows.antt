-- ===== src/Txn/HeapFile/Rows.antt =====
-- heap_file.cpp: the rows that a client sees, the invariant of a heap file, and what the calls on a page
-- do to the bytes that clients see.
use mathlib.Core.Path.{subst}
use flintdb.Prelude.{
  ℕ, ◌+◌, ◌^◌, ◌<◌, ◌≡◌, refl, sym, ap, ◌∙◌, true, Option, none, some, List, arith, ◌==◌, ==_self,
  if◌then◌else◌, nat_key, has, Bool-cases, Option-cases, inl, inr,
}
use flintdb.Storage.Page.{Page, init_heap_page, new_page}
use flintdb.Storage.Page.WellFormed.{IsWellFormed}
use flintdb.Storage.DiskManager.{allocate_page, read_page}
use flintdb.Storage.BufferPool.{
  BufferPool, set_page, mark_dirty, new_pool_page, new_heap_page, fetch_page,
}
use flintdb.Storage.BufferPool.Coherent.{
  view, IsCoherent, Fetched, Fetches, refuses, returns, fetch_page_lem,
}
use flintdb.Storage.BufferPool.Steps.{
  touch-IsCoherent, new_heap_page-IsCoherent, fetch_page-IsCoherent,
}
use flintdb.Txn.LockManager.{LockMode, LockManager, Outcome}
use flintdb.Txn.TransactionManager.{TransactionManager, set_pool, notified, mark_page_dirty}
use flintdb.Txn.TransactionManager.Logging.{pool_view}
use flintdb.Txn.PageAccess.{
  Stop, waits, dies, Call, gave, stopped, after_round, lock_page, fetch, store, allocate_heap_page,
}
use flintdb.Txn.HeapFile.{Rid, HeapFile, row_in}

abbrev pub row_seen : Option (List ℕ) → ℕ → Option (List ℕ)
row_seen none slot = none
row_seen (some bytes) slot = row_in (record { buf = bytes }) slot

-- The row of an id, as clients see the pages of the file.
abbrev pub row_at : TransactionManager → HeapFile → Rid → Option (List ℕ)
row_at m h rid =
    if has rid.page_id h.page_ids
    then row_seen (pool_view (m.buffer_pools h.object_id) rid.page_id) rid.slot_id
    else none

-- The pool of the file's object is coherent, and clients see well-formed pages.
pub record IsHeap (m : TransactionManager) (h : HeapFile) : Type 0 where
  pub pool : BufferPool
  pub is_pool : m.buffer_pools h.object_id ≡ some pool
  pub coherent : IsCoherent pool
  pub whole :
      (pid : ℕ)
      → has pid h.page_ids ≡ true
      → (page : Page) × (view pool pid ≡ some page.buf) × IsWellFormed page

-- How AcquireLock ends without the lock, which only a thread with a transaction can see.
pub data Refusal : Stop → Type 0 where
  wait : Refusal waits
  death : Refusal dies

-- A round of LockPage changes nothing but the lock table.
pub data Locks (thread : ℕ) (m : TransactionManager) : Call (Unit {0}) → Type 0 where
  got : (locks : LockManager) → Locks thread m (gave tt (record m { lock_manager = locks }))
  refused :
      {why : Stop} (locks : LockManager) (t : ℕ)
      → m.current_txn thread ≡ some t
      → Refusal why
      → Locks thread m (stopped why (record m { lock_manager = locks }))

after_round-Locks :
    (thread t : ℕ) (m : TransactionManager) (locks : LockManager) (outcome : Outcome)
    → m.current_txn thread ≡ some t
    → Locks thread m (after_round m locks outcome)
after_round-Locks thread t m locks Outcome.granted e = got locks
after_round-Locks thread t m locks Outcome.waits e = refused locks t e wait
after_round-Locks thread t m locks Outcome.dies e = refused locks t e death

pub lock_page-Locks :
    (thread o pid : ℕ) (mode : LockMode) (m : TransactionManager)
    → Locks thread m (lock_page thread o pid mode m)
unfolding lock_page
lock_page-Locks thread o pid mode m = elim (Option-cases (m.current_txn thread)) [
  | inl e ↦ rw (e, lock_page) (got m.lock_manager)
  | inr (t, e) ↦ rw (e, lock_page) (after_round-Locks thread t m _ _ e)
]

pub view-exists :
    (b : BufferPool) (pid : ℕ) (bytes : List ℕ)
    → IsCoherent b
    → view b pid ≡ some bytes
    → pid < b.disk_manager.next_page_id
unfolding read_page
view-exists b pid bytes c e = elim (Option-cases (b.pages pid)) [
  | inr (page, f) ↦ c.exists pid page f
  | inl f ↦ ground (arith, e, rw f at e)
]

some_inj : {x y : List ℕ} → some x ≡ some y → x ≡ y
some_inj h = cc

-- A page that FetchPage returns in place of one that clients see.
found :
    (b : BufferPool) (pid : ℕ) (seen : Page) (r : Option (Page × BufferPool))
    → Fetches b pid r
    → view b pid ≡ some seen.buf
    → (b' : BufferPool) × (r ≡ some (seen, b')) × Fetched b pid seen b'
found b pid seen none (refuses e) s = absurd (cc)
found b pid seen (some (page, b')) (returns f) s =
    let same : page ≡ seen = ap (λ bytes. record { buf = bytes }) (some_inj (sym f.seen ∙ s)) in
    (b', ap (λ p. some (p, b')) same, subst (λ p. Fetched b pid p b') same f)

-- What a client finds when it fetches a page that it sees.
pub fetch_seen :
    (o pid : ℕ) (m : TransactionManager) (b : BufferPool) (page : Page)
    → m.buffer_pools o ≡ some b
    → IsCoherent b
    → view b pid ≡ some page.buf
    → (b' : BufferPool) × (fetch o pid m ≡ gave page (set_pool m o b'))
      × Fetched b pid page b'
      × IsCoherent b'
unfolding fetch
fetch_seen o pid m b page e c s =
    let (b', f, done) = found b pid page (fetch_page b pid) (fetch_page_lem b pid) s in
    (b', rw (e, f, fetch) refl, done, fetch_page-IsCoherent pid page c f)

-- A client has written a page of an object: nothing else changes for clients.
pub record Wrote (m : TransactionManager) (b : BufferPool) (o pid : ℕ) (page : Page)
    (m' : TransactionManager) : Type 0 where
  pub pool : BufferPool
  pub is_pool : m'.buffer_pools o ≡ some pool
  pub coherent : IsCoherent pool
  pub seen : (q : ℕ) → view pool q ≡ (if q == pid then some page.buf else view b q)
  pub same_current : m'.current_txn ≡ m.current_txn

notified-Wrote :
    {m0 : TransactionManager} {b : BufferPool} {o pid : ℕ} {page : Page} (m : TransactionManager)
    (i q : ℕ) (observer : Option ℕ)
    → Wrote m0 b o pid page m
    → Wrote m0 b o pid page (notified m i q observer)
notified-Wrote m i q none w = w
notified-Wrote m i q (some t) w = record {
  pool = w.pool;
  is_pool = w.is_pool;
  coherent = w.coherent;
  seen = w.seen;
  same_current = w.same_current;
}

touched-view :
    (thread pid q : ℕ) (b : BufferPool) (page : Page)
    → view (mark_dirty thread (set_page b pid page) pid).0 q
      ≡ (if q == pid then some page.buf else view b q)
unfolding mark_dirty
touched-view thread pid q b page = elim (Bool-cases (q == pid)) [
  | inl same ↦ rw same refl
  | inr other ↦ rw other refl
]

pub set_pool_same :
    (m : TransactionManager) (o : ℕ) (b : BufferPool) → (set_pool m o b).buffer_pools o ≡ some b
set_pool_same m o b = rw (==_self o) refl

mark_page_dirty-pool :
    (thread : ℕ) (m : TransactionManager) (o pid : ℕ) (b : BufferPool)
    → m.buffer_pools o ≡ some b
    → mark_page_dirty thread m o pid
      ≡ notified (set_pool m o (mark_dirty thread b pid).0) o pid (mark_dirty thread b pid).1
unfolding mark_page_dirty
mark_page_dirty-pool thread m o pid b e = rw (e, mark_page_dirty) refl

pub store_seen :
    (thread o pid : ℕ) (m : TransactionManager) (b : BufferPool) (page : Page)
    → m.buffer_pools o ≡ some b
    → IsCoherent b
    → pid < b.disk_manager.next_page_id
    → (m' : TransactionManager) × (store thread o pid page m ≡ gave tt m') × Wrote m b o pid page m'
unfolding store mark_dirty
store_seen thread o pid m b page e c room =
    let touched = set_page b pid page in
    let stored = set_pool m o touched in
    (
      mark_page_dirty thread stored o pid,
      rw (e, store) refl,
      rw (mark_page_dirty-pool thread stored o pid touched (set_pool_same m o touched)) (
          notified-Wrote (set_pool stored o (mark_dirty thread touched pid).0) o pid _ (record {
            pool = (mark_dirty thread touched pid).0;
            is_pool = set_pool_same stored o (mark_dirty thread touched pid).0;
            coherent = touch-IsCoherent thread pid page c room;
            seen = λ q. touched-view thread pid q b page;
            same_current = refl;
          })),
    )

new_heap_page-view :
    (thread q : ℕ) (b : BufferPool)
    → IsCoherent b
    → b.disk_manager.next_page_id + 1 < 2 ^ 32
    → view (new_heap_page thread b).0 q ≡ (
        if q == b.disk_manager.next_page_id
        then some (init_heap_page new_page b.disk_manager.next_page_id).buf
        else view b q)
unfolding new_heap_page new_pool_page mark_dirty allocate_page read_page
new_heap_page-view thread q b c room = elim (Bool-cases (q == b.disk_manager.next_page_id)) [
  | inl same ↦ rw same refl
  | inr other ↦ rw other (ground (arith, c.exists q, room))
]

pub allocate_seen :
    (thread o : ℕ) (m : TransactionManager) (b : BufferPool)
    → m.buffer_pools o ≡ some b
    → IsCoherent b
    → b.disk_manager.next_page_id + 1 < 2 ^ 32
    → (m' : TransactionManager) × (allocate_heap_page thread o m
        ≡ gave b.disk_manager.next_page_id m')
      × Wrote m b o b.disk_manager.next_page_id
          (init_heap_page new_page b.disk_manager.next_page_id)
          m'
unfolding allocate_heap_page new_heap_page new_pool_page mark_dirty allocate_page
allocate_seen thread o m b e c room =
    let grown = (new_heap_page thread b).0 in
    (
      notified (set_pool m o grown) o b.disk_manager.next_page_id (b.observers_by_thread thread),
      rw (e, allocate_heap_page) refl,
      notified-Wrote (set_pool m o grown) o b.disk_manager.next_page_id
          (b.observers_by_thread thread)
          (record {
            pool = grown;
            is_pool = set_pool_same m o grown;
            coherent = new_heap_page-IsCoherent thread c room;
            seen = λ q. new_heap_page-view thread q b c room;
            same_current = refl;
          }),
    )
