-- ===== src/Txn/TransactionManager/PoolsView.antt =====
-- transaction_manager.cpp: the pools of all objects, with the observers of a thread cleared.
use Prim.Native.Nat.{max}
use mathlib.Core.Path.{fun_ext, subst}
use flintdb.Prelude.{
  ℕ, ◌<◌, ◌≡◌, refl, sym, ap, ◌∙◌, Bool, true, Option, none, some, List, [], ◌∷◌, if◌then◌else◌,
  nat_key, has, arith, All, Bool-cases, inl, inr, lt→ltb, ◌-◌,
}
use flintdb.Storage.BufferPool.{BufferPool, clear_active_transaction_observer}
use flintdb.Storage.BufferPool.Coherent.{on_disk, view, IsCoherent}
use flintdb.Storage.BufferPool.Flush.{view-Flushes}
use flintdb.Wal.LogManager.{LogManager, done, flush_through}
use flintdb.Txn.LockManager.{PageKey, page_key, page_eq, page_eq_iff}
use flintdb.Txn.TransactionManager.{TransactionManager, on_pool, on_pools, find_txn, dirtied_of}
use flintdb.Txn.TransactionManager.Logging.{IsDirtyIn, pool_view, bytes_seen, image_at}
use flintdb.Txn.TransactionManager.Flushing.{AreCoherent, PoolFlushes, unregistered, in_pool}

abbrev pub dirtied : TransactionManager → ℕ → List PageKey
dirtied m t = dirtied_of (find_txn m.active_txns t)

-- The bytes that the file of an object holds of a page.
abbrev pub pool_disk : Option BufferPool → ℕ → Option (List ℕ)
pool_disk none pid = none
pool_disk (some b) pid = on_disk b pid

-- The pools are coherent, and what the transaction dirtied is dirty.
pub record IsReady (m : TransactionManager) (t : ℕ) : Type 0 where
  pub coherent : AreCoherent m.buffer_pools
  pub is_dirty : All (λ k. IsDirtyIn m.buffer_pools k.object_id k.page_id) (dirtied m t)

abbrev pub cleared : ℕ → Option BufferPool → Option BufferPool
cleared thread = on_pool (clear_active_transaction_observer thread)

abbrev pub cleared_in : ℕ → TransactionManager → TransactionManager
cleared_in thread = on_pools (clear_active_transaction_observer thread)

pub clear-IsCoherent :
    {b : BufferPool} (thread : ℕ)
    → IsCoherent b
    → IsCoherent (clear_active_transaction_observer thread b)
unfolding clear_active_transaction_observer
clear-IsCoherent thread c = record {
  exists = c.exists;
  matches = c.matches;
  is_cached = c.is_cached;
}

pub cleared-IsCoherent :
    (thread : ℕ) (x : Option BufferPool) (b : BufferPool)
    → ((y : BufferPool) → x ≡ some y → IsCoherent y)
    → cleared thread x ≡ some b
    → IsCoherent b
cleared-IsCoherent thread none b c e = absurd (cc)
cleared-IsCoherent thread (some y) b c e =
    subst (λ o. elim o [ none ↦ Unit | some z ↦ IsCoherent z ]) e
      (clear-IsCoherent thread (c y refl))

pub cleared-IsDirtyIn :
    (m : TransactionManager) (thread o pid : ℕ)
    → IsDirtyIn m.buffer_pools o pid
    → IsDirtyIn (cleared_in thread m).buffer_pools o pid
unfolding clear_active_transaction_observer
cleared-IsDirtyIn m thread o pid d = record {
  pool = clear_active_transaction_observer thread d.pool;
  is_pool = ap (cleared thread) d.is_pool;
  coherent = clear-IsCoherent thread d.coherent;
  is_dirty = d.is_dirty;
}

pub pool_view-cleared :
    (thread : ℕ) (x : Option BufferPool) (q : ℕ) → pool_view (cleared thread x) q ≡ pool_view x q
unfolding clear_active_transaction_observer
pool_view-cleared thread none q = refl
pool_view-cleared thread (some b) q = refl

pub pool_disk-cleared :
    (thread : ℕ) (x : Option BufferPool) (q : ℕ) → pool_disk (cleared thread x) q ≡ pool_disk x q
unfolding clear_active_transaction_observer
pool_disk-cleared thread none q = refl
pool_disk-cleared thread (some b) q = refl

pub image_at-cleared :
    (m : TransactionManager) (thread : ℕ)
    → image_at (cleared_in thread m).buffer_pools ≡ image_at m.buffer_pools
image_at-cleared m thread =
    fun_ext λ o. fun_ext λ q. ap bytes_seen (pool_view-cleared thread (m.buffer_pools o) q)

-- The page is dirty in the pool, if there is one.
abbrev pub DirtyAt : Option BufferPool → ℕ → Type 0
DirtyAt none q = Unit
DirtyAt (some b) q = has q b.dirty ≡ true

pub pool_view-PoolFlushes :
    {x y : Option BufferPool} {asked : ℕ → Bool} (q : ℕ)
    → ((b : BufferPool) → x ≡ some b → IsCoherent b)
    → PoolFlushes x asked y
    → pool_view y q ≡ pool_view x q
pool_view-PoolFlushes q c unregistered = refl
pool_view-PoolFlushes q c (in_pool {b = b} f) = view-Flushes b _ _ q (c b refl) f

pub pool_disk-PoolFlushes :
    {x y : Option BufferPool} {asked : ℕ → Bool} (q : ℕ)
    → ((b : BufferPool) → x ≡ some b → IsCoherent b)
    → (asked q ≡ true → DirtyAt x q)
    → PoolFlushes x asked y
    → pool_disk y q ≡ (if asked q then pool_view x q else pool_disk x q)
pool_disk-PoolFlushes {asked = asked} q c d unregistered = ground arith
pool_disk-PoolFlushes {asked = asked} q c d (in_pool {b = b} f) = elim (Bool-cases (asked q)) [
  | inr other ↦ rw other (f.written q ∙ (rw other refl))
  | inl yes_asked ↦
      let (page, e) = (c b refl).is_cached q (d yes_asked) in
      rw yes_asked (f.written q ∙ (rw (yes_asked, d yes_asked, e, view) refl))
]

pub All-has :
    (P : PageKey → Type 0) (k : PageKey) (ks : List PageKey) → has k ks ≡ true → All P ks → P k
unfolding has
All-has P k [] h a = absurd (cc)
All-has P k (x ∷ ks) h a = elim (Bool-cases (page_eq k x)) [
  | inl same ↦ subst P (sym ((page_eq_iff k x).0 same)) a.0
  | inr other ↦ All-has P k ks (ground (arith, other)) a.1
]

abbrev pub durable_log : LogManager → ℕ → LogManager
durable_log l lsn = record l {
  synced = l.file;
  durable_lsn = max l.durable_lsn (max lsn (l.next_lsn - 1));
}

pub flush_through-behind :
    (l : LogManager) (lsn : ℕ)
    → l.durable_lsn < lsn
    → flush_through l lsn true ≡ done (durable_log l lsn)
unfolding flush_through
flush_through-behind l lsn h = rw (lt→ltb l.durable_lsn lsn h) refl
