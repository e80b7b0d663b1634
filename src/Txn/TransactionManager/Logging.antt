-- ===== src/Txn/TransactionManager/Logging.antt =====
-- transaction_manager.cpp: what Commit appends to the log.
use mathlib.Core.Path.{fun_ext}
use flintdb.Prelude.{
  ℕ, ◌≡◌, refl, sym, ap, ◌∙◌, true, Option, none, some, List, [], ◌∷◌, ◌==◌, ==_iff, nat_key, has,
  All, Bool-cases, inl, inr,
}
use flintdb.Storage.Page.{Page}
use flintdb.Storage.BufferPool.{BufferPool, fetch_page}
use flintdb.Storage.BufferPool.Coherent.{view, IsCoherent}
use flintdb.Wal.LogManager.{LogManager, append_update}
use flintdb.Txn.TransactionManager.{
  TransactionManager, set_pool, reached, log_page, log_pages, log_groups,
}

abbrev pub Pools : Type 0
Pools = ℕ → Option BufferPool

-- A page that is dirty in the coherent pool of its object.
pub record IsDirtyIn (pools : Pools) (o pid : ℕ) : Type 0 where
  pub pool : BufferPool
  pub is_pool : pools o ≡ some pool
  pub coherent : IsCoherent pool
  pub is_dirty : has pid pool.dirty ≡ true

-- The bytes that a client sees of a page of an object.
abbrev pub pool_view : Option BufferPool → ℕ → Option (List ℕ)
pool_view none pid = none
pool_view (some b) pid = view b pid

abbrev pub bytes_seen : Option (List ℕ) → List ℕ
bytes_seen none = []
bytes_seen (some bytes) = bytes

-- The contents of each page of each object.
abbrev pub Images : Type 0
Images = ℕ → ℕ → List ℕ

abbrev pub image_at : Pools → Images
image_at pools o pid = bytes_seen (pool_view (pools o) pid)

abbrev pub with_log : TransactionManager → LogManager → TransactionManager
with_log m l = record m { log_manager = l }

set_pool_same :
    (m : TransactionManager) (o : ℕ) (b : BufferPool)
    → m.buffer_pools o ≡ some b
    → set_pool m o b ≡ m
set_pool_same m o b e =
    ap (λ (f : Pools). record m { buffer_pools = f })
      (fun_ext λ i. elim (Bool-cases (i == o)) [
        | inl same ↦ rw same (sym e ∙ ap m.buffer_pools (sym ((==_iff i o).0 same)))
        | inr other ↦ rw other refl
      ])

fetch_page_cached :
    (b : BufferPool) (pid : ℕ) (page : Page)
    → b.pages pid ≡ some page
    → fetch_page b pid ≡ some (page, b)
unfolding fetch_page
fetch_page_cached b pid page e = rw (e, fetch_page) refl

log_page_lem :
    (m : TransactionManager) (t o pid : ℕ)
    → IsDirtyIn m.buffer_pools o pid
    → log_page m t o pid
      ≡ reached (with_log m (append_update m.log_manager t o pid (image_at m.buffer_pools o pid)).0)
unfolding log_page
log_page_lem m t o pid d =
    let (page, e) = d.coherent.is_cached pid d.is_dirty in
    rw (d.is_pool, fetch_page_cached d.pool pid page e, log_page)
      (rw (e, view)
        (ap (λ m'. reached (with_log m' (append_update m.log_manager t o pid page.buf).0))
          (set_pool_same m o d.pool d.is_pool)))

-- The updates of these pages, one after the other.
unfoldable pub append_updates : LogManager → ℕ → Images → ℕ → List ℕ → LogManager
append_updates l t images o [] = l
append_updates l t images o (pid ∷ pids) =
    append_updates (append_update l t o pid (images o pid)).0 t images o pids

unfoldable pub append_groups : LogManager → ℕ → Images → List (ℕ × List ℕ) → LogManager
append_groups l t images [] = l
append_groups l t images (g ∷ gs) = append_groups (append_updates l t images g.0 g.1) t images gs

log_pages_lem :
    (m : TransactionManager) (t o : ℕ) (pids : List ℕ)
    → All (IsDirtyIn m.buffer_pools o) pids
    → log_pages m t o pids
      ≡ reached (with_log m (append_updates m.log_manager t (image_at m.buffer_pools) o pids))
unfolding log_pages append_updates
log_pages_lem m t o [] h = refl
log_pages_lem m t o (pid ∷ pids) h = rw (log_page_lem m t o pid h.0) (
    log_pages_lem
      (with_log m (append_update m.log_manager t o pid (image_at m.buffer_pools o pid)).0) t o pids
      h.1)

pub log_groups_lem :
    (m : TransactionManager) (t : ℕ) (gs : List (ℕ × List ℕ))
    → All (λ g. All (IsDirtyIn m.buffer_pools g.0) g.1) gs
    → log_groups m t gs
      ≡ reached (with_log m (append_groups m.log_manager t (image_at m.buffer_pools) gs))
unfolding log_groups append_groups
log_groups_lem m t [] h = refl
log_groups_lem m t (g ∷ gs) h = rw (log_pages_lem m t g.0 g.1 h.0) (
    log_groups_lem (with_log m (append_updates m.log_manager t (image_at m.buffer_pools) g.0 g.1)) t
      gs h.1)
