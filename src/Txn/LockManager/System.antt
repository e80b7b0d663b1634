-- ===== src/Txn/LockManager/System.antt =====
-- lock_manager.cpp under threads: each call runs under the class's mutex, so the threads of a process
-- interleave whole rounds of AcquireLock and whole calls of ReleaseAll. A transaction that waits on
-- the condition variable makes no call until a notification, or a spurious wake-up, sends it back to
-- the top of its loop. A transaction id comes from the counter of TransactionManager::Begin.
use flintdb.Prelude.{ℕ, suc, ◌<◌, ◌≡◌, true, false, Option, none, some, ◌==◌, if◌then◌else◌}
use flintdb.Txn.LockManager.{
  LockMode, PageKey, LockManager, empty, granted, waits, dies, acquire_step, release_all,
}

pub record Request : Type 0 where
  pub key : PageKey
  pub mode : LockMode

pub record System : Type 0 where
  pub manager : LockManager
  pub waiting : ℕ → Option Request
  pub next_txn_id : ℕ

abbrev pub start : System
start = record { manager = empty; waiting = λ _. none; next_txn_id = 1 }

abbrev pub park : System → ℕ → Request → System
park s t r = record s { waiting = λ u. if t == u then some r else s.waiting u }

abbrev pub wake : System → ℕ → System
wake s t = record s { waiting = λ u. if t == u then none else s.waiting u }

pub data Step (s s' : System) : Type 0 where
  begins : s' ≡ record s { next_txn_id = suc s.next_txn_id } → Step s s'
  acquires :
      (t : ℕ) (r : Request)
      → t < s.next_txn_id
      → s.waiting t ≡ none
      → (acquire_step s.manager t r.key r.mode).1 ≡ granted
      → s' ≡ record s { manager = (acquire_step s.manager t r.key r.mode).0 }
      → Step s s'
  parks :
      (t : ℕ) (r : Request)
      → t < s.next_txn_id
      → s.waiting t ≡ none
      → (acquire_step s.manager t r.key r.mode).1 ≡ waits
      → s' ≡ park s t r
      → Step s s'
  throws :
      (t : ℕ) (r : Request)
      → t < s.next_txn_id
      → s.waiting t ≡ none
      → (acquire_step s.manager t r.key r.mode).1 ≡ dies
      → s' ≡ s
      → Step s s'
  wakes : (t : ℕ) → s' ≡ wake s t → Step s s'
  -- `notify_all`: every waiter goes back to the top of its loop.
  notifies :
      (t : ℕ)
      → s.waiting t ≡ none
      → (release_all s.manager t).1 ≡ true
      → s' ≡ record s { manager = (release_all s.manager t).0; waiting = λ _. none }
      → Step s s'
  releases_nothing :
      (t : ℕ)
      → s.waiting t ≡ none
      → (release_all s.manager t).1 ≡ false
      → s' ≡ record s { manager = (release_all s.manager t).0 }
      → Step s s'

pub data Reach (s : System) : System → Type 0 where
  here : Reach s s
  next : {s' s'' : System} → Reach s s' → Step s' s'' → Reach s s''
