-- ===== src/Txn/HeapFile/GetRow.antt =====
-- heap_file.cpp: GetRow.
use flintdb.Storage.Page.{Page, get_slot_entry, get_slot_count, get_record, is_deleted}
use flintdb.Prelude.{
  ap, ◌∙◌, ◌<◌, ◌≤◌, some, none, true, false, arith, leb, ℕ, ◌≡◌, refl, sym, Option, List, nat_key,
  has, Bool-cases, inl, inr,
}
use flintdb.Txn.LockManager.{LockMode}
use flintdb.Txn.TransactionManager.{TransactionManager}
use flintdb.Txn.TransactionManager.Logging.{pool_view}
use flintdb.Txn.PageAccess.{Stop, Call, gave, stopped, fetch}
use flintdb.Txn.HeapFile.{Rid, HeapFile, row_in, get_row}
use flintdb.Txn.HeapFile.Rows.{row_at, IsHeap, Refusal, fetch_seen}
use flintdb.Txn.HeapFile.Access.{
  Unchanged, with_locks, locked, gave_then, fetched-Unchanged, locked-Unchanged, row_at-page,
}

-- The flag of a deleted record, in the length that the entry of its slot holds.
abbrev pub HasTombstone : Page → ℕ → Type 0
HasTombstone page slot = 0x8000 ≤ (get_slot_entry page slot).length

-- What a read of a slot gives: the record of a slot in use without the flag, and else nothing.
pub data SlotRead (page : Page) (slot : ℕ) : Option (List ℕ) → Type 0 where
  present :
      slot < get_slot_count page
      → (¬ HasTombstone page slot)
      → SlotRead page slot (some (get_record page slot))
  not_in_use : get_slot_count page ≤ slot → SlotRead page slot none
  deleted : HasTombstone page slot → SlotRead page slot none

-- What a read of a row gives: nothing on a page that is not the file's, and else what the slot gives on
-- the page as clients see it.
pub data RowRead (m : TransactionManager) (h : HeapFile) (rid : Rid)
    : Option (List ℕ) → Type 0 where
  foreign : has rid.page_id h.page_ids ≡ false → RowRead m h rid none
  own :
      {v : Option (List ℕ)} (page : Page)
      → has rid.page_id h.page_ids ≡ true
      → pool_view (m.buffer_pools h.object_id) rid.page_id ≡ some page.buf
      → SlotRead page rid.slot_id v
      → RowRead m h rid v

leb_sound : (x y : ℕ) → leb x y ≡ true → x ≤ y
leb_sound x y h = ground (arith, h)

leb_refutes : (x y : ℕ) → leb x y ≡ false → y < x
leb_refutes x y h = ground (arith, h)

is_deleted-HasTombstone :
    (page : Page) (slot : ℕ) → is_deleted page slot ≡ true → HasTombstone page slot
unfolding is_deleted
is_deleted-HasTombstone page slot h = leb_sound 0x8000 (get_slot_entry page slot).length h

not_deleted-HasTombstone :
    (page : Page) (slot : ℕ) → is_deleted page slot ≡ false → ¬ HasTombstone page slot
unfolding is_deleted
not_deleted-HasTombstone page slot h flagged =
    let below = leb_refutes 0x8000 (get_slot_entry page slot).length h in omega arith

row_in-SlotRead : (page : Page) (slot : ℕ) → SlotRead page slot (row_in page slot)
unfolding row_in
row_in-SlotRead page slot = elim (Bool-cases (leb (get_slot_count page) slot)) [
  | inl past ↦ rw (past, row_in) (not_in_use (leb_sound (get_slot_count page) slot past))
  | inr used ↦ elim (Bool-cases (is_deleted page slot)) [
    | inl gone ↦ rw (used, gone, row_in) (deleted (is_deleted-HasTombstone page slot gone))
    | inr live ↦
        rw (used, live, row_in)
          (present (leb_refutes (get_slot_count page) slot used)
            (not_deleted-HasTombstone page slot live))
  ]
]

pub data Gets (thread : ℕ) (m : TransactionManager) (h : HeapFile) (rid : Rid)
    : Call (Option (List ℕ)) → Type 0 where
  read :
      {v : Option (List ℕ)} {m' : TransactionManager}
      → RowRead m h rid v
      → v ≡ row_at m h rid
      → Unchanged m h m'
      → Gets thread m h rid (gave v m')
  not_granted :
      {why : Stop} {m' : TransactionManager} (t : ℕ)
      → m.current_txn thread ≡ some t
      → Refusal why
      → Unchanged m h m'
      → Gets thread m h rid (stopped why m')

-- GetRow on a heap file changes no row and returns, for an id on one of the file's pages, the record of its
-- slot on the page as clients see it if the slot is below the page's slot count and its entry has no
-- tombstone flag, and nothing if the slot is past the count or has the flag, or if the page is not the
-- file's. It is the row that the map of the file's rows has there. It stops only where the calling
-- thread has a transaction that waits or dies in AcquireLock.
pub get_row_lem :
    (thread : ℕ) (m : TransactionManager) (h : HeapFile) (rid : Rid)
    → IsHeap m h
    → Gets thread m h rid (get_row thread h rid m)
unfolding get_row
get_row_lem thread m h rid w = elim (Bool-cases (has rid.page_id h.page_ids)) [
  | inr outside ↦
      rw (outside, get_row)
        (read (foreign outside) (rw outside refl) (record { heap = w; same = λ r. refl }))
  | inl owned ↦
      let (page, seen, ok) = w.whole rid.page_id owned in
      rw (owned, get_row)
        (locked (Gets thread m h rid) thread h.object_id rid.page_id LockMode.shared m _
          (λ locks.
            let (b', f, done, c) =
              fetch_seen h.object_id rid.page_id (with_locks m locks) w.pool page w.is_pool
                w.coherent seen in
            gave_then (Gets thread m h rid) (fetch h.object_id rid.page_id) _ (with_locks m locks) f
              (read
                (own page owned (ap (λ p. pool_view p rid.page_id) w.is_pool ∙ seen)
                  (row_in-SlotRead page rid.slot_id))
                (sym (row_at-page m h rid page w owned seen))
                (fetched-Unchanged m h locks b' rid.page_id page w done c)))
          (λ why locks t e r. not_granted t e r (locked-Unchanged m h locks w)))
]
