-- ===== src/Tests/Transaction.antt =====
-- One thread's transaction that creates a heap page of object 7, as in tests/test_transaction_manager.cpp and
-- tests/test_buffer_pool.cpp: committed, committed without its fsync, rolled back, and recovered.
use mathlib.Core.Path.{subst}
use flintdb.Prelude.{
  ℕ, ◌<◌, ◌≡◌, refl, sym, ap, ◌∙◌, true, false, none, some, List, [], ◌∷◌, ◌++◌, append-nil, arith,
  ◌==◌, if◌then◌else◌, has, insert, nat_key, All, Bool-cases, inl, inr,
}
use flintdb.Storage.Page.{new_page}
use flintdb.Storage.Page.WellFormed.{init_heap_page-IsWellFormed}
use flintdb.Storage.DiskManager.{DiskManager, allocate_page, read_page, write_page}
use flintdb.Storage.BufferPool.{
  BufferPool, flushed, open_pool, mark_dirty, new_pool_page, new_heap_page, flush_pages,
  set_active_transaction_observer,
}
use flintdb.Storage.BufferPool.Coherent.{IsCoherent}
use flintdb.Storage.BufferPool.Flush.{Flushes, flush_pages_lem}
use flintdb.Storage.BufferPool.Reach.{
  Reach, start, step, observes, allocates_heap_page, Reach-IsCoherent,
}
use flintdb.Wal.LogRecord.{LogRecord}
use flintdb.Wal.LogManager.{
  LogManager, next_after, append_record, append_update, append_commit, open_log,
}
use flintdb.Wal.LogManager.Reopen.{bytes_of_all, open_log-written, clean}
use flintdb.Wal.LogManager.Durable.{Holds}
use flintdb.Wal.Recovery.{
  Disks, replayed, set_disk, redo, redo_failure, collect_committed, replay, run_recovery,
}
use flintdb.Wal.Recovery.Redo.{committed_in, page_at, last_image}
use flintdb.Txn.LockManager.{PageKey, page_key, empty}
use flintdb.Txn.TransactionManager.{
  TransactionManager, find_txn, add_page, group_dirtied_pages_by_object, reached, raised, commit,
  abort,
}
use flintdb.Txn.TransactionManager.Logging.{pool_view, image_at, append_groups, append_updates}
use flintdb.Txn.TransactionManager.Records.{Fits, group_records, update_records}
use flintdb.Txn.TransactionManager.PoolsView.{dirtied, pool_disk, IsReady}
use flintdb.Txn.TransactionManager.Flushing.{AreCoherent, Registered}
use flintdb.Txn.TransactionManager.Commit.{log_of_updates, commit_records, Committed, commit_lem}
use flintdb.Txn.TransactionManager.Survives.{commit_survives_crash}
use flintdb.Txn.TransactionManager.Abort.{Aborted, abort_lem}
use flintdb.Txn.TransactionManager.FailedCommit.{
  commit_fsync_fails, failed_at, commit-failed_at, failed_at-Aborted, abort_record,
  failed_commit_is_replayed,
}

program : Unit {0}
unfolding open_pool mark_dirty new_pool_page new_heap_page set_active_transaction_observer
    allocate_page read_page find_txn add_page group_dirtied_pages_by_object append_groups
    append_updates append_update append_commit append_record group_records update_records set_disk
    redo redo_failure collect_committed replay run_recovery write_page has insert committed_in
    last_image bytes_of_all next_after empty
program = tt

abbrev file : DiskManager
file = record { pages = λ p. []; next_page_id = 0 }

abbrev observed : BufferPool
observed = set_active_transaction_observer 1 (open_pool file) 9

abbrev pool : BufferPool
pool = (new_heap_page 1 observed).0

pool-Reach : Reach file pool
unfolding program
pool-Reach = step (step (start refl) (observes 1 9 refl)) (allocates_heap_page 1 (omega arith) refl)

Reach-IsCoherent_example : IsCoherent pool
Reach-IsCoherent_example = Reach-IsCoherent file pool pool-Reach

pool-IsCoherent : IsCoherent pool
pool-IsCoherent = Reach-IsCoherent file pool pool-Reach

flush_pages_lem_example :
    (b' : BufferPool) × (flush_pages pool (0 ∷ 4 ∷ []) ≡ flushed b')
    × Flushes pool (λ q. has q (0 ∷ 4 ∷ [])) b'
flush_pages_lem_example = flush_pages_lem pool (0 ∷ 4 ∷ []) pool-IsCoherent

abbrev key : PageKey
key = record { object_id = 7; page_id = 0 }

abbrev new_log : LogManager
new_log = record { file = []; synced = []; next_lsn = 1; records_on_open = []; durable_lsn = 0 }

abbrev busy : TransactionManager
busy = record {
  log_manager = new_log;
  lock_manager = empty;
  buffer_pools = λ o. if o == 7 then some pool else none;
  active_txns = record { txn_id = 9; dirtied_pages = key ∷ [] } ∷ [];
  next_txn_id = 10;
  current_txn = λ thread. if thread == 1 then some 9 else none;
}

busy-AreCoherent : AreCoherent busy.buffer_pools
busy-AreCoherent o b e = elim (Bool-cases (o == 7)) [
  | inl at ↦
      subst (λ p. elim p [ none ↦ Unit | some x ↦ IsCoherent x ])
        (ap (λ p. if p then some pool else none) (sym at) ∙ e) pool-IsCoherent
  | inr other ↦ absurd (ground (arith, e))
]

busy-IsReady : IsReady busy 9
unfolding program
busy-IsReady = record {
  coherent = busy-AreCoherent;
  is_dirty =
      (record { pool = pool; is_pool = refl; coherent = pool-IsCoherent; is_dirty = refl }, tt);
}

new_log-Holds : Holds new_log []
unfolding program
new_log-Holds = record { file_is = refl; writable = tt; counter = refl }

page-Fits : All (λ k. Fits (image_at busy.buffer_pools) 9 k.object_id k.page_id) (dirtied busy 9)
unfolding program
page-Fits = (
  record {
    txn_fits = omega arith;
    object_fits = omega arith;
    page_fits = omega arith;
    is_whole = (init_heap_page-IsWellFormed new_page 0).0.size;
  },
  tt,
)

is_behind : 0 < (log_of_updates busy 9).next_lsn
unfolding program
is_behind = omega arith

current : busy.current_txn 1 ≡ some 9
current = refl

commit_lem_example :
    (m' : TransactionManager) × (commit 1 busy 9 true ≡ reached m') × Committed 1 busy 9 [] m'
commit_lem_example =
    commit_lem 1 busy 9 [] current busy-IsReady new_log-Holds (omega arith) page-Fits is_behind

commit_fsync_fails_example :
    (m' : TransactionManager) × (commit 1 busy 9 false ≡ raised m')
    × ((o q : ℕ) → pool_disk (m'.buffer_pools o) q ≡ pool_disk (busy.buffer_pools o) q)
    × ((o q : ℕ) → pool_view (m'.buffer_pools o) q ≡ pool_view (busy.buffer_pools o) q)
    × (m'.lock_manager ≡ busy.lock_manager)
    × (m'.active_txns ≡ busy.active_txns)
    × (m'.current_txn ≡ busy.current_txn)
    × (m'.log_manager.synced ≡ busy.log_manager.synced)
commit_fsync_fails_example = commit_fsync_fails 1 busy 9 current busy-IsReady is_behind

busy-Registered : All (λ k. Registered busy.buffer_pools k.object_id) (dirtied busy 9)
unfolding program
busy-Registered = ((pool, refl), tt)

abort_lem_example :
    (m' : TransactionManager) × (abort 1 busy 9 ≡ reached m') × Aborted 1 busy 9 [] m'
abort_lem_example =
    abort_lem 1 busy 9 [] current busy-AreCoherent busy-Registered new_log-Holds (omega arith)

-- The crash comes when the page is in the file, but empty.
abbrev disks : Disks
disks = λ o. if o == 7 then some (record { pages = λ _. []; next_page_id = 1 }) else none

abbrev logged : List LogRecord
logged = commit_records busy 9

abbrev reopened : LogManager
reopened = record {
  file = bytes_of_all logged;
  synced = bytes_of_all logged ++ [];
  next_lsn = next_after logged;
  records_on_open = logged;
  durable_lsn = 0;
}

abbrev recovered : Disks
recovered = (run_recovery logged disks).1

recovers : run_recovery logged disks ≡ (replayed 1, recovered)
unfolding program
recovers = refl

abbrev after : TransactionManager
after = commit_lem_example.0

after-Committed : Committed 1 busy 9 [] after
after-Committed = commit_lem_example.2

reopens : open_log after.log_manager.synced ≡ some reopened
reopens =
    ap open_log (
      after-Committed.synced
      ∙ after-Committed.logged.file_is
      ∙ sym (append-nil (bytes_of_all logged)))
    ∙ open_log-written logged [] after-Committed.logged.writable clean

commit_survives_crash_example : page_at (run_recovery (commit_records busy 9) disks).1 7 0 ≡ (
    if has key (dirtied busy 9)
    then some (image_at busy.buffer_pools 7 0)
    else last_image [] (committed_in ([] ++ commit_records busy 9)) 7 0 (page_at disks 7 0))
commit_survives_crash_example =
    commit_survives_crash 1 busy after 9 [] reopened 1 disks recovered 7 0 current busy-IsReady
      new_log-Holds (omega arith) page-Fits is_behind commit_lem_example.1 reopens recovers

abbrev failed : TransactionManager
failed = failed_at 1 busy 9

failed-Aborted :
    (m2 : TransactionManager) × (abort 1 failed 9 ≡ reached m2) × Aborted 1 failed 9 logged m2
failed-Aborted =
    failed_at-Aborted 1 busy 9 [] current busy-IsReady new_log-Holds (omega arith) page-Fits

abbrev rolled_back : TransactionManager
rolled_back = failed-Aborted.0

abbrev kept : List LogRecord
kept = logged ++ abort_record failed.log_manager 9 ∷ []

abbrev reopened_later : LogManager
reopened_later = record {
  file = bytes_of_all kept;
  synced = bytes_of_all kept ++ [];
  next_lsn = next_after kept;
  records_on_open = kept;
  durable_lsn = 0;
}

reopens_later : open_log rolled_back.log_manager.file ≡ some reopened_later
reopens_later =
    ap open_log (failed-Aborted.2.logged.file_is ∙ sym (append-nil (bytes_of_all kept)))
    ∙ open_log-written kept [] failed-Aborted.2.logged.writable clean

abbrev recovered_later : Disks
recovered_later = (run_recovery kept disks).1

recovers_later : run_recovery kept disks ≡ (replayed 1, recovered_later)
unfolding program
recovers_later = refl

is_dirtied : has key (dirtied busy 9) ≡ true
unfolding program
is_dirtied = refl

failed_commit_is_replayed_example :
    (pool_view (rolled_back.buffer_pools 7) 0 ≡ pool_disk (busy.buffer_pools 7) 0)
    × (page_at recovered_later 7 0 ≡ some (image_at busy.buffer_pools 7 0))
failed_commit_is_replayed_example =
    failed_commit_is_replayed 1 busy failed rolled_back 9 [] reopened_later 1 disks recovered_later
      7 0 current busy-IsReady new_log-Holds (omega arith) page-Fits is_behind
      (commit-failed_at 1 busy 9 current busy-IsReady is_behind) failed-Aborted.1 reopens_later
      recovers_later is_dirtied
