-- ===== src/Txn/TransactionManager/Commit.antt =====
-- transaction_manager.cpp: what Commit does to the files, the log and the lock table.
use mathlib.Core.Path.{subst}
use flintdb.Prelude.{
  ℕ, ◌^◌, ◌<◌, ◌≡◌, refl, sym, ◌∙◌, Bool, true, none, some, List, [], ◌∷◌, ◌++◌, append_assoc,
  ==_iff, if◌then◌else◌, nat_key, has, arith, All, All-imp,
}
use flintdb.Wal.LogRecord.{LogRecord, LogRecordType, no_image, invalid_object_id, invalid_page_id}
use flintdb.Wal.LogManager.{LogManager, append_update, append_commit, append_record}
use flintdb.Wal.LogManager.Durable.{Holds, written}
use flintdb.Txn.LockManager.{PageKey, page_key, release_all}
use flintdb.Txn.TransactionManager.{
  Transaction, TransactionManager, find_txn, erase_txn, dirtied_groups,
  group_dirtied_pages_by_object, reached, log_commit, finish, commit_with, commit,
}
use flintdb.Txn.TransactionManager.Logging.{
  Pools, IsDirtyIn, pool_view, image_at, with_log, append_updates, append_groups, log_groups_lem,
  Images,
}
use flintdb.Txn.TransactionManager.Records.{
  Fits, group_records, append_groups-Holds, append_commit-Holds, in_groups,
}
use flintdb.Txn.TransactionManager.Flushing.{
  with_pools, AreCoherent, Registered, PoolFlushes, flush_groups_lem,
}
use flintdb.Txn.TransactionManager.Groups.{key_of, in_groups-group, group-AllGroups, group-objects}
use flintdb.Txn.TransactionManager.PoolsView.{
  dirtied, pool_disk, IsReady, cleared, cleared_in, cleared-IsCoherent, cleared-IsDirtyIn,
  pool_view-cleared, pool_disk-cleared, image_at-cleared, DirtyAt, pool_view-PoolFlushes,
  pool_disk-PoolFlushes, All-has, durable_log, flush_through-behind,
}

-- The log before the commit record, and the records that Commit writes.
abbrev pub log_of_updates : TransactionManager → ℕ → LogManager
log_of_updates m t = append_groups m.log_manager t (image_at m.buffer_pools) (dirtied_groups m t)

abbrev pub commit_records : TransactionManager → ℕ → List LogRecord
commit_records m t =
    group_records m.log_manager t (image_at m.buffer_pools) (dirtied_groups m t)
    ++ written (log_of_updates m t) LogRecordType.commit t invalid_object_id invalid_page_id
        no_image
      ∷ []

-- A transaction that has ended well.
pub record Committed (thread : ℕ) (m : TransactionManager) (t : ℕ) (rs : List LogRecord)
    (m' : TransactionManager) : Type 0 where
  pub seen : (o q : ℕ) → pool_view (m'.buffer_pools o) q ≡ pool_view (m.buffer_pools o) q
  pub on_file :
      (o q : ℕ)
      → pool_disk (m'.buffer_pools o) q ≡ (
          if has (key_of o q) (dirtied m t)
          then pool_view (m.buffer_pools o) q
          else pool_disk (m.buffer_pools o) q)
  pub logged : Holds m'.log_manager (rs ++ commit_records m t)
  pub synced : m'.log_manager.synced ≡ m'.log_manager.file
  pub unlocked : m'.lock_manager ≡ (release_all m.lock_manager t).0
  pub no_current : m'.current_txn thread ≡ none
  pub over : find_txn m'.active_txns t ≡ none

pub find_txn-erase_txn : (xs : List Transaction) (t : ℕ) → find_txn (erase_txn xs t) t ≡ none
unfolding find_txn erase_txn
find_txn-erase_txn [] t = refl
find_txn-erase_txn (x ∷ xs) t = ground (arith, find_txn-erase_txn xs t)

append_updates-durable :
    (l : LogManager) (t o : ℕ) (pids : List ℕ) (images : Images)
    → (append_updates l t images o pids).durable_lsn ≡ l.durable_lsn
unfolding append_updates append_update append_record
append_updates-durable l t o [] images = refl
append_updates-durable l t o (pid ∷ pids) images =
    append_updates-durable (append_update l t o pid (images o pid)).0 t o pids images

pub append_groups-durable :
    (l : LogManager) (t : ℕ) (gs : List (ℕ × List ℕ)) (images : Images)
    → (append_groups l t images gs).durable_lsn ≡ l.durable_lsn
unfolding append_groups
append_groups-durable l t [] images = refl
append_groups-durable l t (g ∷ gs) images =
    append_groups-durable (append_updates l t images g.0 g.1) t gs images
    ∙ append_updates-durable l t g.0 g.1 images

commit_lsn-uncovered :
    (l : LogManager) (t : ℕ)
    → l.durable_lsn < l.next_lsn
    → (append_commit l t).0.durable_lsn < (append_commit l t).1
unfolding append_commit append_record
commit_lsn-uncovered l t h = h

-- The log after the commit record is written and synced.
abbrev synced_log : LogManager → ℕ → LogManager
synced_log l t = durable_log (append_commit l t).0 (append_commit l t).1

log_commit_lem :
    (m : TransactionManager) (t : ℕ)
    → m.log_manager.durable_lsn < m.log_manager.next_lsn
    → log_commit m t true ≡ reached (with_log m (synced_log m.log_manager t))
unfolding log_commit
log_commit_lem m t h =
    rw
      (
        flush_through-behind (append_commit m.log_manager t).0 (append_commit m.log_manager t).1
            (commit_lsn-uncovered m.log_manager t h),
        log_commit,
      )
      refl

commit_with_lem :
    (thread : ℕ) (m : TransactionManager) (t : ℕ) (ks : List PageKey)
    → AreCoherent m.buffer_pools
    → All (λ k. IsDirtyIn m.buffer_pools k.object_id k.page_id) ks
    → m.log_manager.durable_lsn
      < (append_groups m.log_manager t
          (image_at m.buffer_pools)
          (group_dirtied_pages_by_object ks [])).next_lsn
    → (pools : Pools) × (commit_with thread m t (group_dirtied_pages_by_object ks []) true
        ≡ reached (
            finish thread
              (with_pools
                (with_log m (
                  synced_log
                    (append_groups m.log_manager t
                      (image_at m.buffer_pools)
                      (group_dirtied_pages_by_object ks []))
                    t))
                pools)
              t))
      × ((o : ℕ)
          → PoolFlushes
              (m.buffer_pools o)
              (λ q. in_groups o q (group_dirtied_pages_by_object ks []))
              (pools o))
unfolding commit_with
commit_with_lem thread m t ks c d behind =
    let gs = group_dirtied_pages_by_object ks [] in
    let l = append_groups m.log_manager t (image_at m.buffer_pools) gs in
    let logged = log_groups_lem m t gs (group-AllGroups (IsDirtyIn m.buffer_pools) ks [] d tt) in
    let synced =
      log_commit_lem (with_log m l) t
        (rw (append_groups-durable m.log_manager t gs (image_at m.buffer_pools)) behind) in
    let (pools, flushes, all) = flush_groups_lem (with_log m (synced_log l t)) gs c (
      group-objects (Registered m.buffer_pools) ks [] (All-imp ks (λ k x. (x.pool, x.is_pool)) d)
        tt) in
    (pools, rw (logged, synced, flushes) refl, all)

-- The manager that a commit leads to.
abbrev committed_at : ℕ → TransactionManager → ℕ → Pools → TransactionManager
committed_at thread m t pools =
    finish thread
      (with_pools (with_log (cleared_in thread m) (synced_log (log_of_updates m t) t)) pools) t

synced_log-Holds :
    (l : LogManager) (rs : List LogRecord) (t : ℕ)
    → Holds l rs
    → t < 2 ^ 64
    → Holds
        (synced_log l t)
        (rs ++ written l LogRecordType.commit t invalid_object_id invalid_page_id no_image ∷ [])
synced_log-Holds l rs t h f =
    let g = append_commit-Holds l rs t h f in
    record { file_is = g.file_is; writable = g.writable; counter = g.counter }

pub committed_at-Holds :
    (m : TransactionManager) (t : ℕ) (rs : List LogRecord)
    → Holds m.log_manager rs
    → t < 2 ^ 64
    → All (λ k. Fits (image_at m.buffer_pools) t k.object_id k.page_id) (dirtied m t)
    → Holds (synced_log (log_of_updates m t) t) (rs ++ commit_records m t)
committed_at-Holds m t rs h small fits =
    subst (Holds (synced_log (log_of_updates m t) t))
      (append_assoc rs
        (group_records m.log_manager t (image_at m.buffer_pools) (dirtied_groups m t)) _)
      (synced_log-Holds (log_of_updates m t) _ t
        (append_groups-Holds m.log_manager rs t (dirtied_groups m t) (image_at m.buffer_pools) h
          (group-AllGroups (Fits (image_at m.buffer_pools) t) (dirtied m t) [] fits tt))
        small)

IsDirtyIn-DirtyAt : {pools : Pools} {o q : ℕ} → IsDirtyIn pools o q → DirtyAt (pools o) q
IsDirtyIn-DirtyAt d = rw d.is_pool d.is_dirty

module _ (thread : ℕ) (m : TransactionManager) (t : ℕ) (rs : List LogRecord)
    (ready : IsReady m t) where
  asked_of : ℕ → ℕ → Bool
  asked_of o q = in_groups o q (dirtied_groups m t)

  asked_lem : (o q : ℕ) → in_groups o q (dirtied_groups m t) ≡ has (key_of o q) (dirtied m t)
  unfolding in_groups
  asked_lem o q = in_groups-group (dirtied m t) [] o q ∙ ground arith

  committed_at-Committed :
      (pools : Pools)
      → Holds (synced_log (log_of_updates m t) t) (rs ++ commit_records m t)
      → ((o : ℕ)
          → PoolFlushes
              (cleared thread (m.buffer_pools o))
              (λ q. in_groups o q (dirtied_groups m t))
              (pools o))
      → Committed thread m t rs (committed_at thread m t pools)
  unfolding finish
  committed_at-Committed pools h all = record {
    seen = λ o q.
        pool_view-PoolFlushes q
          (λ b. cleared-IsCoherent thread (m.buffer_pools o) b (ready.coherent o)) (all o)
        ∙ pool_view-cleared thread (m.buffer_pools o) q;
    on_file = λ o q.
        pool_disk-PoolFlushes q
          (λ b. cleared-IsCoherent thread (m.buffer_pools o) b (ready.coherent o))
          (λ e. IsDirtyIn-DirtyAt (
            cleared-IsDirtyIn m thread o q (
              All-has (λ k. IsDirtyIn m.buffer_pools k.object_id k.page_id) (key_of o q)
                (dirtied m t) (sym (asked_lem o q) ∙ e) ready.is_dirty)))
          (all o)
        ∙ (rw
            (
              asked_lem o q,
              pool_view-cleared thread (m.buffer_pools o) q,
              pool_disk-cleared thread (m.buffer_pools o) q,
            )
            refl);
    logged = h;
    synced = refl;
    unlocked = refl;
    no_current = ground (arith, ==_iff thread thread);
    over = find_txn-erase_txn m.active_txns t;
  }

-- Commit of the calling thread's own transaction, when the pools are coherent, the pages that it dirtied
-- are dirty and whole, the log holds rs and fsync works, ends without an exception. Then the log holds
-- rs, an update record with the bytes that clients see for each dirtied page, and the commit record,
-- and all of it is synced; the files hold those bytes of the dirtied pages, and of every other page
-- what they held; no page's contents change for clients; the transaction's locks are released and it
-- is no longer active. The premise on durable_lsn says that the commit record's LSN is not covered yet.
pub commit_lem :
    (thread : ℕ) (m : TransactionManager) (t : ℕ) (rs : List LogRecord)
    → m.current_txn thread ≡ some t
    → IsReady m t
    → Holds m.log_manager rs
    → t < 2 ^ 64
    → All (λ k. Fits (image_at m.buffer_pools) t k.object_id k.page_id) (dirtied m t)
    → m.log_manager.durable_lsn < (log_of_updates m t).next_lsn
    → (m' : TransactionManager) × (commit thread m t true ≡ reached m') × Committed thread m t rs m'
unfolding commit
commit_lem thread m t rs current ready h small fits behind =
    let same = image_at-cleared m thread in
    let (pools, done_with, all) =
      commit_with_lem thread (cleared_in thread m) t (dirtied m t)
        (λ o b. cleared-IsCoherent thread (m.buffer_pools o) b (ready.coherent o))
        (All-imp (dirtied m t) (λ k. cleared-IsDirtyIn m thread k.object_id k.page_id)
          ready.is_dirty)
        (rw same behind) in
    (
      committed_at thread m t pools,
      rw (current) (ground (arith, ==_iff t t, rw same at done_with)),
      committed_at-Committed thread m t rs ready pools (committed_at-Holds m t rs h small fits) all,
    )
