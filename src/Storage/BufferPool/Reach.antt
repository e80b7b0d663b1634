-- ===== src/Storage/BufferPool/Reach.antt =====
-- buffer_pool.cpp: the pools that calls of the methods lead to, from a file that was just opened.
use mathlib.Core.Path.{subst}
use flintdb.Prelude.{ℕ, ◌+◌, ◌^◌, ◌<◌, ◌≡◌, sym, ◌∙◌, some, List, nat_key, has, arith}
use flintdb.Storage.Page.{Page}
use flintdb.Storage.DiskManager.{DiskManager}
use flintdb.Storage.BufferPool.{
  BufferPool, flushed, open_pool, set_page, mark_dirty, new_pool_page, new_heap_page, fetch_page,
  flush_all, flush_pages, reset_all, set_active_transaction_observer,
  clear_active_transaction_observer, discard_page,
}
use flintdb.Storage.BufferPool.Coherent.{IsCoherent}
use flintdb.Storage.BufferPool.Steps.{
  touch-IsCoherent, new_pool_page-IsCoherent, new_heap_page-IsCoherent, fetch_page-IsCoherent,
  discard_page_lem,
}
use flintdb.Storage.BufferPool.Flush.{flush_pages_lem}
use flintdb.Storage.BufferPool.FlushAll.{flush_all_lem, FlushesAll-IsCoherent}

-- A call, or a client's write to a page that is cached, followed by MarkDirty.
pub data Step (b b' : BufferPool) : Type 0 where
  allocates :
      (thread : ℕ)
      → b.disk_manager.next_page_id + 1 < 2 ^ 32
      → (new_pool_page thread b).0 ≡ b'
      → Step b b'
  allocates_heap_page :
      (thread : ℕ)
      → b.disk_manager.next_page_id + 1 < 2 ^ 32
      → (new_heap_page thread b).0 ≡ b'
      → Step b b'
  fetches : (pid : ℕ) (page : Page) → fetch_page b pid ≡ some (page, b') → Step b b'
  writes :
      (thread pid : ℕ) (before after : Page)
      → b.pages pid ≡ some before
      → (mark_dirty thread (set_page b pid after) pid).0 ≡ b'
      → Step b b'
  flushes : (ids : List ℕ) → flush_pages b ids ≡ flushed b' → Step b b'
  flushes_all : flush_all b ≡ flushed b' → Step b b'
  discards : (pid : ℕ) → discard_page b pid ≡ some b' → Step b b'
  resets : reset_all b ≡ b' → Step b b'
  observes :
      (thread observer : ℕ) → set_active_transaction_observer thread b observer ≡ b' → Step b b'
  stops_observing : (thread : ℕ) → clear_active_transaction_observer thread b ≡ b' → Step b b'

pub data Reach (d : DiskManager) : BufferPool → Type 0 where
  start : {b : BufferPool} → open_pool d ≡ b → Reach d b
  step : {b b' : BufferPool} → Reach d b → Step b b' → Reach d b'

open_pool-IsCoherent : (d : DiskManager) → IsCoherent (open_pool d)
unfolding open_pool has
open_pool-IsCoherent d = record {
  exists = λ q p e. ground arith;
  matches = λ q p e clean. ground arith;
  is_cached = λ q h. ground arith;
}

Option_inj : {a b : BufferPool} → some a ≡ some b → a ≡ b
Option_inj h = cc

flushed_inj : {a b : BufferPool} → flushed a ≡ flushed b → a ≡ b
flushed_inj h = cc

Step-IsCoherent : {b b' : BufferPool} → IsCoherent b → Step b b' → IsCoherent b'
unfolding reset_all set_active_transaction_observer clear_active_transaction_observer has
Step-IsCoherent c (allocates thread room e) =
    subst IsCoherent e (new_pool_page-IsCoherent thread c room)
Step-IsCoherent c (allocates_heap_page thread room e) =
    subst IsCoherent e (new_heap_page-IsCoherent thread c room)
Step-IsCoherent c (fetches pid page e) = fetch_page-IsCoherent pid page c e
Step-IsCoherent c (writes thread pid before after f e) =
    subst IsCoherent e (touch-IsCoherent thread pid after c (c.exists pid before f))
Step-IsCoherent {b} {b'} c (flushes ids e) =
    let (b1, f, done) = flush_pages_lem b ids c in
    subst IsCoherent (flushed_inj (sym f ∙ e)) done.coherent
Step-IsCoherent {b} {b'} c (flushes_all e) =
    let (b1, f, all) = flush_all_lem b c in
    subst IsCoherent (flushed_inj (sym f ∙ e)) (FlushesAll-IsCoherent b b1 c all)
Step-IsCoherent {b} {b'} c (discards pid e) =
    let (b1, f, d) = discard_page_lem b pid c in
    subst IsCoherent (Option_inj (sym f ∙ e)) d.coherent
Step-IsCoherent c (resets e) = subst IsCoherent e (record {
  exists = λ q p f. ground arith;
  matches = λ q p f clean. ground arith;
  is_cached = λ q h. ground arith;
})
Step-IsCoherent c (observes thread observer e) =
    subst IsCoherent e (record { exists = c.exists; matches = c.matches; is_cached = c.is_cached })
Step-IsCoherent c (stops_observing thread e) =
    subst IsCoherent e (record { exists = c.exists; matches = c.matches; is_cached = c.is_cached })

-- Whatever calls were made since the file was opened, as long as the file has fewer than 2 ^ 32 - 1
-- pages when one is added: every cached page exists in the file, a cached page that is not dirty is
-- the file's, and every dirty page is cached.
pub Reach-IsCoherent : (d : DiskManager) (b : BufferPool) → Reach d b → IsCoherent b
Reach-IsCoherent d b (start e) = subst IsCoherent e (open_pool-IsCoherent d)
Reach-IsCoherent d b (step r s) = Step-IsCoherent (Reach-IsCoherent d _ r) s
