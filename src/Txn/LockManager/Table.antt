-- ===== src/Txn/LockManager/Table.antt =====
-- lock_manager.cpp: what one round of AcquireLock and a ReleaseAll do to the whole table.
use flintdb.Prelude.{
  ℕ, ◌≡◌, ◌≢◌, Bool, true, false, ◌&&◌, none, some, List, [], ◌∷◌, arith, ◌==◌, Option-cases, inl,
  inr, if◌then◌else◌, nat_key, has, insert, has-insert,
}
use flintdb.Txn.LockManager.{
  LockMode, shared, exclusive, PageKey, page_eq, page_eq_iff, page_key, LockEntry, LockManager,
  already_sufficient, granted, note_held, acquire_entry, acquire_step, release_page, release_pages,
  entry_holds, holds,
}
use flintdb.Txn.LockManager.Entries.{grant_entry-holds, fresh_entry-holds, release_entry-holds}

-- The pages that the second map lists for a transaction.
abbrev pub listed : LockManager → ℕ → PageKey → Bool
listed m t k = elim (m.held_by_txn t) [ none ↦ false | some ks ↦ has k ks ]

pub listed-note_held :
    (m : LockManager) (t u : ℕ) (k j : PageKey)
    → listed (note_held m t k) u j ≡ (if (t == u) && page_eq j k then true else listed m u j)
unfolding note_held has insert
listed-note_held m t u k j = elim (Option-cases (m.held_by_txn t)) [
  | inl e ↦ ground arith
  | inr (ks, e) ↦ ground (arith, has-insert k j ks)
]

pub already_sufficient-holds :
    (e : LockEntry) (t : ℕ) (mode : LockMode)
    → already_sufficient e t mode ≡ true
    → entry_holds (some e) t ≡ true
unfolding already_sufficient
already_sufficient-holds e t shared h = h
already_sufficient-holds e t exclusive h = ground arith

acquire_entry-holds :
    (m : LockManager) (t u : ℕ) (k j : PageKey) (mode : LockMode) (e : LockEntry)
    → m.locks k ≡ some e
    → (acquire_step m t k mode).1 ≡ granted
    → holds (acquire_step m t k mode).0 u j
      ≡ (if (t == u) && page_eq k j then true else holds m u j)
unfolding acquire_step acquire_entry note_held
acquire_entry-holds m t u k j mode e at g =
    ground (arith, page_eq_iff k j, grant_entry-holds e t u mode, already_sufficient-holds e t mode)

-- A grant gives the requester the page, keeps every other hold, and takes nothing away.
pub acquire-holds :
    (m : LockManager) (t u : ℕ) (k j : PageKey) (mode : LockMode)
    → (acquire_step m t k mode).1 ≡ granted
    → holds (acquire_step m t k mode).0 u j
      ≡ (if (t == u) && page_eq k j then true else holds m u j)
unfolding acquire_step note_held
acquire-holds m t u k j mode g = elim (Option-cases (m.locks k)) [
  | inl e ↦ ground (arith, page_eq_iff k j, fresh_entry-holds t u mode)
  | inr (x, e) ↦ acquire_entry-holds m t u k j mode x e (ground arith)
]

pub acquire-refused :
    (m : LockManager) (t : ℕ) (k : PageKey) (mode : LockMode)
    → (acquire_step m t k mode).1 ≢ granted
    → (acquire_step m t k mode).0 ≡ m
unfolding acquire_step acquire_entry
acquire-refused m t k mode h = ground arith

pub release_page-holds :
    (m : LockManager) (t u : ℕ) (k j : PageKey)
    → holds (release_page m t k) u j ≡ (if (t == u) && page_eq k j then false else holds m u j)
unfolding release_page
release_page-holds m t u k j = elim (Option-cases (m.locks k)) [
  | inl e ↦ ground (arith, page_eq_iff k j)
  | inr (x, e) ↦ ground (arith, page_eq_iff k j, release_entry-holds x t u)
]

pub release_pages-holds :
    (m : LockManager) (t u : ℕ) (ks : List PageKey) (j : PageKey)
    → holds (release_pages m t ks) u j ≡ (if (t == u) && has j ks then false else holds m u j)
unfolding release_pages has
release_pages-holds m t u [] j = ground arith
release_pages-holds m t u (k ∷ ks) j = ground (
  arith,
  release_pages-holds (release_page m t k) t u ks j,
  release_page-holds m t u k j,
  page_eq_iff k j,
  page_eq_iff j k,
)
