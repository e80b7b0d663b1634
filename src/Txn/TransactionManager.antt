-- ===== src/Txn/TransactionManager.antt =====
-- src/txn/transaction.h, transaction.cpp, transaction_manager.h and transaction_manager.cpp: the
-- transactions, over the lock table, the log and the buffer pools of the objects. The hash maps are
-- walked in the order that the model keeps them in. Each object has a buffer pool of its own.
pub mod Logging
pub mod Records
pub mod Flushing
pub mod Groups
pub mod PoolsView
pub mod Commit
pub mod Survives
pub mod Discarding
pub mod Abort
pub mod FailedCommit
use flintdb.Prelude.{
  ℕ, suc, ◌+◌, Bool, true, false, Option, none, some, List, [], ◌∷◌, ◌==◌, if◌then◌else◌, nat_key,
  insert, length,
}
use flintdb.Storage.Page.{Page}
use flintdb.Storage.BufferPool.{
  BufferPool, FlushResult, flushed, threw, mark_dirty, fetch_page, flush_pages, discard_page,
  set_active_transaction_observer, clear_active_transaction_observer,
}
use flintdb.Wal.LogManager.{
  LogManager, append_begin, append_update, append_commit, append_abort, Flushed, done, failed,
  flush_through, u64,
}
use flintdb.Txn.LockManager.{LockManager, PageKey, page_key, release_all}

pub record Transaction : Type 0 where
  pub txn_id : ℕ
  pub dirtied_pages : List PageKey

-- `current_txn` is g_current_txn of each thread.
pub record TransactionManager : Type 0 where
  pub log_manager : LogManager
  pub lock_manager : LockManager
  pub buffer_pools : ℕ → Option BufferPool
  pub active_txns : List Transaction
  pub next_txn_id : ℕ
  pub current_txn : ℕ → Option ℕ

abbrev pub set_pool : TransactionManager → ℕ → BufferPool → TransactionManager
set_pool m o b = record m { buffer_pools = λ i. if i == o then some b else m.buffer_pools i }

unfoldable pub register_object : TransactionManager → ℕ → BufferPool → TransactionManager
register_object m o b = set_pool m o b

abbrev pub on_pool : (BufferPool → BufferPool) → Option BufferPool → Option BufferPool
on_pool f none = none
on_pool f (some b) = some (f b)

-- A loop over the registered pools that changes each one.
abbrev pub on_pools : (BufferPool → BufferPool) → TransactionManager → TransactionManager
on_pools f m = record m { buffer_pools = λ o. on_pool f (m.buffer_pools o) }

abbrev pub set_current : TransactionManager → ℕ → Option ℕ → TransactionManager
set_current m thread t = record m { current_txn = λ i. if i == thread then t else m.current_txn i }

unfoldable pub find_txn : List Transaction → ℕ → Option Transaction
find_txn [] t = none
find_txn (x ∷ xs) t = if x.txn_id == t then some x else find_txn xs t

unfoldable pub erase_txn : List Transaction → ℕ → List Transaction
erase_txn [] t = []
erase_txn (x ∷ xs) t = let rest = erase_txn xs t in if x.txn_id == t then rest else x ∷ rest

-- Transaction::NotifyDirty, on the transaction that an observer names.
unfoldable pub notify_dirty : List Transaction → ℕ → PageKey → List Transaction
notify_dirty [] t key = []
notify_dirty (x ∷ xs) t key =
    (if x.txn_id == t then record x { dirtied_pages = insert key x.dirtied_pages } else x)
    ∷ notify_dirty xs t key

-- BufferPool::MarkDirty on a pool that is registered, with what its observer does.
abbrev pub notified : TransactionManager → ℕ → ℕ → Option ℕ → TransactionManager
notified m o pid none = m
notified m o pid (some t) = record m {
  active_txns = notify_dirty m.active_txns t (record { object_id = o; page_id = pid });
}

unfoldable pub mark_page_dirty : ℕ → TransactionManager → ℕ → ℕ → TransactionManager
mark_page_dirty thread m o pid = elim (m.buffer_pools o) [
  | none ↦ m
  | some b ↦
      let (b', observer) = mark_dirty thread b pid in notified (set_pool m o b') o pid observer
]

-- `none` is the exception for a thread that has a transaction.
unfoldable pub begin : ℕ → TransactionManager → Option (TransactionManager × ℕ)
begin thread m = elim (m.current_txn thread) [
  | some t ↦ none
  | none ↦
      let t = m.next_txn_id in
      let logged = record m {
        next_txn_id = u64 (t + 1);
        log_manager = (append_begin m.log_manager t).0;
      } in
      let active = record logged {
        active_txns = record { txn_id = t; dirtied_pages = [] } ∷ logged.active_txns;
      } in
      some (
        on_pools (λ b. set_active_transaction_observer thread b t)
            (set_current active thread (some t)),
        t,
      )
]

-- by_object[o].insert(pid)
unfoldable pub add_page : ℕ → ℕ → List (ℕ × List ℕ) → List (ℕ × List ℕ)
add_page o pid [] = (o, insert pid []) ∷ []
add_page o pid (g ∷ gs) = if g.0 == o then (o, insert pid g.1) ∷ gs else g ∷ add_page o pid gs

unfoldable pub group_dirtied_pages_by_object : List PageKey → List (ℕ × List ℕ) → List (ℕ × List ℕ)
group_dirtied_pages_by_object [] groups = groups
group_dirtied_pages_by_object (k ∷ ks) groups =
    group_dirtied_pages_by_object ks (add_page k.object_id k.page_id groups)

-- A part of Commit or Abort: the state after it, or where an exception leaves it.
pub data Progress : Type 0 where
  reached : TransactionManager → Progress
  raised : TransactionManager → Progress

infixl 5 ◌>=>◌
abbrev pub ◌>=>◌ : Progress → (TransactionManager → Progress) → Progress
reached m >=> next = next m
raised m >=> next = raised m

-- AppendUpdate with what FetchPage returns.
unfoldable pub log_page : TransactionManager → ℕ → ℕ → ℕ → Progress
log_page m t o pid = elim (m.buffer_pools o) [
  | none ↦ raised m
  | some b ↦ elim (fetch_page b pid) [
    | none ↦ raised m
    | some (page, b') ↦ reached (record (set_pool m o b') {
      log_manager = (append_update m.log_manager t o pid page.buf).0;
    })
  ]
]

unfoldable pub log_pages : TransactionManager → ℕ → ℕ → List ℕ → Progress
log_pages m t o [] = reached m
log_pages m t o (pid ∷ pids) = log_page m t o pid >=> λ m'. log_pages m' t o pids

unfoldable pub log_groups : TransactionManager → ℕ → List (ℕ × List ℕ) → Progress
log_groups m t [] = reached m
log_groups m t (g ∷ gs) = log_pages m t g.0 g.1 >=> λ m'. log_groups m' t gs

-- AppendCommit and FlushThrough.
unfoldable pub log_commit : TransactionManager → ℕ → Bool → Progress
log_commit m t fsync_works =
    let (log, commit_lsn) = append_commit m.log_manager t in
    elim (flush_through log commit_lsn fsync_works) [
      | done log' ↦ reached (record m { log_manager = log' })
      | failed log' ↦ raised (record m { log_manager = log' })
    ]

unfoldable pub flush_group : TransactionManager → ℕ → List ℕ → Progress
flush_group m o pids = elim (m.buffer_pools o) [
  | none ↦ raised m
  | some b ↦ elim (flush_pages b pids) [
    | flushed b' ↦ reached (set_pool m o b')
    | threw b' ↦ raised (set_pool m o b')
  ]
]

unfoldable pub flush_groups : TransactionManager → List (ℕ × List ℕ) → Progress
flush_groups m [] = reached m
flush_groups m (g ∷ gs) = flush_group m g.0 g.1 >=> λ m'. flush_groups m' gs

-- ReleaseAll, the thread's pointer and active_txns_.erase.
unfoldable pub finish : ℕ → TransactionManager → ℕ → TransactionManager
finish thread m t =
    set_current
      (record m {
        lock_manager = (release_all m.lock_manager t).0;
        active_txns = erase_txn m.active_txns t;
      })
      thread none

-- GetCurrentTransaction() == txn
abbrev pub is_current : Option ℕ → ℕ → Bool
is_current none t = false
is_current (some u) t = u == t

abbrev pub dirtied_of : Option Transaction → List PageKey
dirtied_of none = []
dirtied_of (some x) = x.dirtied_pages

abbrev pub dirtied_groups : TransactionManager → ℕ → List (ℕ × List ℕ)
dirtied_groups m t = group_dirtied_pages_by_object (dirtied_of (find_txn m.active_txns t)) []

unfoldable pub commit_with : ℕ → TransactionManager → ℕ → List (ℕ × List ℕ) → Bool → Progress
commit_with thread m t groups fsync_works =
    log_groups m t groups
    >=> (λ m1. log_commit m1 t fsync_works)
    >=> (λ m2. flush_groups m2 groups)
    >=> (λ m3. reached (finish thread m3 t))

unfoldable pub commit : ℕ → TransactionManager → ℕ → Bool → Progress
commit thread m t fsync_works =
    if is_current (m.current_txn thread) t
    then commit_with thread (on_pools (clear_active_transaction_observer thread) m) t
        (dirtied_groups m t) fsync_works
    else raised m

unfoldable pub discard_pages : TransactionManager → ℕ → List ℕ → Progress
discard_pages m o [] = reached m
discard_pages m o (pid ∷ pids) = elim (m.buffer_pools o) [
  | none ↦ raised m
  | some b ↦ elim (discard_page b pid) [
    | none ↦ raised m
    | some b' ↦ discard_pages (set_pool m o b') o pids
  ]
]

unfoldable pub discard_groups : TransactionManager → List (ℕ × List ℕ) → Progress
discard_groups m [] = reached m
discard_groups m (g ∷ gs) = discard_pages m g.0 g.1 >=> λ m'. discard_groups m' gs

unfoldable pub abort : ℕ → TransactionManager → ℕ → Progress
abort thread m t =
    if is_current (m.current_txn thread) t
    then discard_groups (on_pools (clear_active_transaction_observer thread) m) (dirtied_groups m t)
      >=> (λ m1.
          reached (finish thread (record m1 { log_manager = (append_abort m1.log_manager t).0 }) t))
    else raised m

unfoldable pub has_active_transaction : TransactionManager → Bool
has_active_transaction m = elim m.active_txns [ [] ↦ false | x ∷ xs ↦ true ]

unfoldable pub num_active_transactions : TransactionManager → ℕ
num_active_transactions m = length m.active_txns
