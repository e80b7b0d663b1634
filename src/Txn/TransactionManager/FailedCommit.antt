-- ===== src/Txn/TransactionManager/FailedCommit.antt =====
-- transaction_manager.cpp with log_manager.cpp and recovery.cpp: a Commit whose fsync fails, and what becomes
-- of its commit record when the transaction is rolled back.
use mathlib.Core.Path.{subst}
use flintdb.Prelude.{
  sym, append-nil, Option, true, ℕ, ◌^◌, ◌<◌, ◌≡◌, refl, ap, ◌∙◌, false, none, some, List, [], ◌∷◌,
  ◌++◌, ==_iff, nat_key, has, arith, lt→ltb, All, All-imp,
}
use flintdb.Storage.BufferPool.{clear_active_transaction_observer}
use flintdb.Wal.LogRecord.{LogRecord, LogRecordType, no_image, invalid_object_id, invalid_page_id}
use flintdb.Wal.LogManager.{LogManager, append_update, append_commit, append_record, flush_through}
use flintdb.Wal.LogManager.Durable.{Holds, written}
use flintdb.Txn.LockManager.{page_key}
use flintdb.Txn.TransactionManager.{
  TransactionManager, dirtied_groups, reached, raised, log_commit, commit_with, commit, abort,
}
use flintdb.Txn.TransactionManager.Logging.{
  IsDirtyIn, pool_view, image_at, with_log, append_updates, append_groups, log_groups_lem, Images,
}
use flintdb.Txn.TransactionManager.Groups.{key_of, group-AllGroups}
use flintdb.Txn.TransactionManager.PoolsView.{
  dirtied, pool_disk, IsReady, cleared, cleared_in, cleared-IsCoherent, cleared-IsDirtyIn,
  pool_view-cleared, pool_disk-cleared, image_at-cleared,
}
use flintdb.Txn.TransactionManager.Commit.{log_of_updates, append_groups-durable}
use flintdb.Wal.LogManager.{open_log}
use flintdb.Wal.LogManager.Reopen.{bytes_of_all, open_log-written, clean}
use flintdb.Wal.Recovery.{Disks, replayed, run_recovery}
use flintdb.Wal.Recovery.Redo.{committed_in, page_at, last_image, run_recovery-last_image}
use flintdb.Txn.TransactionManager.Records.{Fits, last_image-append}
use flintdb.Txn.TransactionManager.Commit.{commit_records, committed_at-Holds}
use flintdb.Txn.TransactionManager.Survives.{
  committed_in-append, committed_in-commit_records, last_image-commit_records,
}
use flintdb.Txn.TransactionManager.Abort.{Aborted, abort_lem}

append_updates-synced :
    (l : LogManager) (t o : ℕ) (pids : List ℕ) (images : Images)
    → (append_updates l t images o pids).synced ≡ l.synced
unfolding append_updates append_update append_record
append_updates-synced l t o [] images = refl
append_updates-synced l t o (pid ∷ pids) images =
    append_updates-synced (append_update l t o pid (images o pid)).0 t o pids images

append_groups-synced :
    (l : LogManager) (t : ℕ) (gs : List (ℕ × List ℕ)) (images : Images)
    → (append_groups l t images gs).synced ≡ l.synced
unfolding append_groups
append_groups-synced l t [] images = refl
append_groups-synced l t (g ∷ gs) images =
    append_groups-synced (append_updates l t images g.0 g.1) t gs images
    ∙ append_updates-synced l t g.0 g.1 images

log_commit_fails :
    (m : TransactionManager) (t : ℕ)
    → m.log_manager.durable_lsn < m.log_manager.next_lsn
    → log_commit m t false ≡ raised (with_log m (append_commit m.log_manager t).0)
unfolding log_commit flush_through append_commit append_record
log_commit_fails m t h =
    rw (lt→ltb m.log_manager.durable_lsn m.log_manager.next_lsn h, log_commit) refl

-- Where the exception leaves the manager: with the commit record at the end of the log.
abbrev pub failed_at : ℕ → TransactionManager → ℕ → TransactionManager
failed_at thread m t = with_log (cleared_in thread m) (append_commit (log_of_updates m t) t).0

pub commit-failed_at :
    (thread : ℕ) (m : TransactionManager) (t : ℕ)
    → m.current_txn thread ≡ some t
    → IsReady m t
    → m.log_manager.durable_lsn < (log_of_updates m t).next_lsn
    → commit thread m t false ≡ raised (failed_at thread m t)
unfolding commit commit_with
commit-failed_at thread m t current ready behind =
    let m0 = cleared_in thread m in
    let same = image_at-cleared m thread in
    let logged = log_groups_lem m0 t (dirtied_groups m t) (
      group-AllGroups (IsDirtyIn m0.buffer_pools) (dirtied m t) []
        (All-imp (dirtied m t) (λ k. cleared-IsDirtyIn m thread k.object_id k.page_id)
          ready.is_dirty)
        tt) in
    let fails = log_commit_fails (with_log m0 (log_of_updates m t)) t (
      rw (append_groups-durable m.log_manager t (dirtied_groups m t) (image_at m.buffer_pools))
        behind) in
    rw current (ground (arith, ==_iff t t, rw same at logged, fails))

-- When the fsync of a Commit fails, Commit throws before it writes a page: the files, what clients see
-- and the lock table are as before and the transaction is still active and its thread's own. Nothing
-- more of the log is synced.
pub commit_fsync_fails :
    (thread : ℕ) (m : TransactionManager) (t : ℕ)
    → m.current_txn thread ≡ some t
    → IsReady m t
    → m.log_manager.durable_lsn < (log_of_updates m t).next_lsn
    → (m' : TransactionManager) × (commit thread m t false ≡ raised m')
      × ((o q : ℕ) → pool_disk (m'.buffer_pools o) q ≡ pool_disk (m.buffer_pools o) q)
      × ((o q : ℕ) → pool_view (m'.buffer_pools o) q ≡ pool_view (m.buffer_pools o) q)
      × (m'.lock_manager ≡ m.lock_manager)
      × (m'.active_txns ≡ m.active_txns)
      × (m'.current_txn ≡ m.current_txn)
      × (m'.log_manager.synced ≡ m.log_manager.synced)
unfolding append_commit append_record
commit_fsync_fails thread m t current ready behind = (
  failed_at thread m t,
  commit-failed_at thread m t current ready behind,
  λ o q. pool_disk-cleared thread (m.buffer_pools o) q,
  λ o q. pool_view-cleared thread (m.buffer_pools o) q,
  refl,
  refl,
  refl,
  append_groups-synced m.log_manager t (dirtied_groups m t) (image_at m.buffer_pools),
)

-- The manager that Abort then leads to.
pub failed_at-Aborted :
    (thread : ℕ) (m : TransactionManager) (t : ℕ) (rs : List LogRecord)
    → m.current_txn thread ≡ some t
    → IsReady m t
    → Holds m.log_manager rs
    → t < 2 ^ 64
    → All (λ k. Fits (image_at m.buffer_pools) t k.object_id k.page_id) (dirtied m t)
    → (m2 : TransactionManager) × (abort thread (failed_at thread m t) t ≡ reached m2)
      × Aborted thread (failed_at thread m t) t (rs ++ commit_records m t) m2
failed_at-Aborted thread m t rs current ready h small fits =
    let logged = committed_at-Holds m t rs h small fits in
    abort_lem thread (failed_at thread m t) t (rs ++ commit_records m t) current
      (λ o b. cleared-IsCoherent thread (m.buffer_pools o) b (ready.coherent o))
      (All-imp (dirtied m t)
        (λ k x. (clear_active_transaction_observer thread x.pool, ap (cleared thread) x.is_pool))
        ready.is_dirty)
      (record { file_is = logged.file_is; writable = logged.writable; counter = logged.counter })
      small

raised_inj : {a b : TransactionManager} → raised a ≡ raised b → a ≡ b
raised_inj h = cc

reached_inj : {a b : TransactionManager} → reached a ≡ reached b → a ≡ b
reached_inj h = cc

records_of_file :
    (l l' : LogManager) (rs : List LogRecord)
    → Holds l rs
    → open_log l.file ≡ some l'
    → l'.records_on_open ≡ rs
records_of_file l l' rs h e =
    subst (λ o. elim o [ none ↦ Unit | some x ↦ x.records_on_open ≡ rs ])
      (sym (open_log-written rs [] h.writable clean)
        ∙ ap open_log (append-nil (bytes_of_all rs) ∙ sym h.file_is)
        ∙ e)
      refl

abbrev pub abort_record : LogManager → ℕ → LogRecord
abort_record l t = written l LogRecordType.abort t invalid_object_id invalid_page_id no_image

-- The abort record takes nothing back.
last_image-aborted :
    (m : TransactionManager) (t : ℕ) (rs : List LogRecord) (l : LogManager) (o q : ℕ)
    (old : Option (List ℕ))
    → has (key_of o q) (dirtied m t) ≡ true
    → last_image
        ((rs ++ commit_records m t) ++ abort_record l t ∷ [])
        (committed_in ((rs ++ commit_records m t) ++ abort_record l t ∷ []))
        o
        q
        old
      ≡ some (image_at m.buffer_pools o q)
unfolding last_image committed_in
last_image-aborted m t rs l o q old mine =
    let all = (rs ++ commit_records m t) ++ abort_record l t ∷ [] in
    let wins : committed_in all t ≡ true = ground (
      arith,
      committed_in-append (rs ++ commit_records m t) (abort_record l t ∷ []) t,
      committed_in-commit_records m t rs,
    ) in
    last_image-append (rs ++ commit_records m t) (abort_record l t ∷ []) (committed_in all) o q old
    ∙ last_image-append rs (commit_records m t) (committed_in all) o q old
    ∙ last_image-commit_records m t (committed_in all) o q _ wins
    ∙ rw mine refl

-- A Commit whose fsync failed leaves its commit record in the log, and Abort does not take it back: after
-- the Abort clients see the files' bytes of the pages that the transaction dirtied, but a recovery from
-- the log as it stands, if it ends without an exception, gives them the bytes that were to be committed.
pub failed_commit_is_replayed :
    (thread : ℕ) (m m1 m2 : TransactionManager) (t : ℕ) (rs : List LogRecord)
    (reopened : LogManager) (n : ℕ) (ds ds' : Disks) (o q : ℕ)
    → m.current_txn thread ≡ some t
    → IsReady m t
    → Holds m.log_manager rs
    → t < 2 ^ 64
    → All (λ k. Fits (image_at m.buffer_pools) t k.object_id k.page_id) (dirtied m t)
    → m.log_manager.durable_lsn < (log_of_updates m t).next_lsn
    → commit thread m t false ≡ raised m1
    → abort thread m1 t ≡ reached m2
    → open_log m2.log_manager.file ≡ some reopened
    → run_recovery reopened.records_on_open ds ≡ (replayed n, ds')
    → has (key_of o q) (dirtied m t) ≡ true
    → (pool_view (m2.buffer_pools o) q ≡ pool_disk (m.buffer_pools o) q)
      × (page_at ds' o q ≡ some (image_at m.buffer_pools o q))
failed_commit_is_replayed thread m m1 m2 t rs reopened n ds ds' o q current ready h small fits
      behind failed aborted opened recovered mine =
    let at_failure : failed_at thread m t ≡ m1 =
      raised_inj (sym (commit-failed_at thread m t current ready behind) ∙ failed) in
    let (m3, e, a0) = failed_at-Aborted thread m t rs current ready h small fits in
    let same : m3 ≡ m2 = reached_inj (sym e ∙ ap (λ x. abort thread x t) at_failure ∙ aborted) in
    let a = subst (Aborted thread (failed_at thread m t) t (rs ++ commit_records m t)) same a0 in
    let records = records_of_file m2.log_manager reopened _ a.logged opened in
    (
      a.seen o q ∙ rw mine (pool_disk-cleared thread (m.buffer_pools o) q),
      (run_recovery-last_image _ n ds ds' o q
            (ap (λ x. run_recovery x ds) (sym records) ∙ recovered)).0
          ∙ last_image-aborted m t rs (append_commit (log_of_updates m t) t).0 o q (page_at ds o q)
              mine,
    )
