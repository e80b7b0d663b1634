-- ===== src/Txn/TransactionManager/Abort.antt =====
-- transaction_manager.cpp: what Abort does, and a Commit whose fsync fails.
use flintdb.Prelude.{
  ℕ, ◌^◌, ◌<◌, ◌≡◌, refl, ap, ◌∙◌, none, some, List, [], ◌∷◌, ◌++◌, ==_iff, if◌then◌else◌, nat_key,
  has, arith, All, All-imp,
}
use flintdb.Storage.BufferPool.{clear_active_transaction_observer}
use flintdb.Wal.LogRecord.{LogRecord, LogRecordType, no_image, invalid_object_id, invalid_page_id}
use flintdb.Wal.LogManager.{append_abort}
use flintdb.Wal.LogManager.Durable.{Holds, written}
use flintdb.Txn.LockManager.{page_key, release_all}
use flintdb.Txn.TransactionManager.{
  TransactionManager, find_txn, dirtied_groups, reached, finish, abort,
}
use flintdb.Txn.TransactionManager.Logging.{Pools, pool_view, with_log}
use flintdb.Txn.TransactionManager.Records.{append_abort-Holds, in_groups}
use flintdb.Txn.TransactionManager.Flushing.{with_pools, AreCoherent, Registered}
use flintdb.Txn.TransactionManager.Groups.{key_of, in_groups-group, group-objects}
use flintdb.Txn.TransactionManager.PoolsView.{
  dirtied, pool_disk, cleared, cleared_in, cleared-IsCoherent, pool_view-cleared, pool_disk-cleared,
}
use flintdb.Txn.TransactionManager.Commit.{find_txn-erase_txn}
use flintdb.Txn.TransactionManager.Discarding.{PoolDiscards, discard_groups_lem}

-- A transaction that was rolled back.
pub record Aborted (thread : ℕ) (m : TransactionManager) (t : ℕ) (rs : List LogRecord)
    (m' : TransactionManager) : Type 0 where
  pub seen :
      (o q : ℕ)
      → pool_view (m'.buffer_pools o) q ≡ (
          if has (key_of o q) (dirtied m t)
          then pool_disk (m.buffer_pools o) q
          else pool_view (m.buffer_pools o) q)
  pub same_file : (o q : ℕ) → pool_disk (m'.buffer_pools o) q ≡ pool_disk (m.buffer_pools o) q
  pub logged : Holds m'.log_manager (
      rs
      ++ written m.log_manager LogRecordType.abort t invalid_object_id invalid_page_id no_image
        ∷ [])
  pub unlocked : m'.lock_manager ≡ (release_all m.lock_manager t).0
  pub no_current : m'.current_txn thread ≡ none
  pub over : find_txn m'.active_txns t ≡ none

abbrev aborted_at : ℕ → TransactionManager → ℕ → Pools → TransactionManager
aborted_at thread m t pools =
    finish thread
      (with_log (with_pools (cleared_in thread m) pools) (append_abort m.log_manager t).0) t

module _ (thread : ℕ) (m : TransactionManager) (t : ℕ) (rs : List LogRecord)
    (c : AreCoherent m.buffer_pools) where
  aborted_at-Aborted :
      (pools : Pools)
      → Holds (append_abort m.log_manager t).0 (
          rs
          ++ written m.log_manager LogRecordType.abort t invalid_object_id invalid_page_id no_image
            ∷ [])
      → ((o : ℕ)
          → PoolDiscards
              (cleared thread (m.buffer_pools o))
              (λ q. in_groups o q (dirtied_groups m t))
              (pools o))
      → Aborted thread m t rs (aborted_at thread m t pools)
  unfolding finish in_groups
  aborted_at-Aborted pools h all = record {
    seen = λ o q. ground (
      arith,
      (all o).seen q,
      in_groups-group (dirtied m t) [] o q,
      pool_view-cleared thread (m.buffer_pools o) q,
      pool_disk-cleared thread (m.buffer_pools o) q,
    );
    same_file = λ o q. (all o).same_file q ∙ pool_disk-cleared thread (m.buffer_pools o) q;
    logged = h;
    unlocked = refl;
    no_current = ground (arith, ==_iff thread thread);
    over = find_txn-erase_txn m.active_txns t;
  }

-- Abort of the calling thread's own transaction, when the pools are coherent, the objects it dirtied
-- pages of are registered and the log holds rs, ends without an exception. Then clients see the files'
-- bytes of every page that it dirtied, and of every other page what they saw; the files are unchanged;
-- the log holds rs and the abort record; the transaction's locks are released and it is no longer active.
pub abort_lem :
    (thread : ℕ) (m : TransactionManager) (t : ℕ) (rs : List LogRecord)
    → m.current_txn thread ≡ some t
    → AreCoherent m.buffer_pools
    → All (λ k. Registered m.buffer_pools k.object_id) (dirtied m t)
    → Holds m.log_manager rs
    → t < 2 ^ 64
    → (m' : TransactionManager) × (abort thread m t ≡ reached m') × Aborted thread m t rs m'
unfolding abort
abort_lem thread m t rs current c registered h small =
    let (pools, discarded, all) =
      discard_groups_lem (cleared_in thread m) (dirtied_groups m t)
        (λ o b. cleared-IsCoherent thread (m.buffer_pools o) b (c o))
        (group-objects (Registered (cleared_in thread m).buffer_pools) (dirtied m t) []
          (All-imp (dirtied m t)
            (λ k r. (clear_active_transaction_observer thread r.0, ap (cleared thread) r.1))
            registered)
          tt) in
    (
      aborted_at thread m t pools,
      rw current (ground (arith, ==_iff t t, discarded)),
      aborted_at-Aborted thread m t rs c pools (append_abort-Holds m.log_manager rs t h small) all,
    )
