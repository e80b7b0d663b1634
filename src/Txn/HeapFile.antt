-- ===== src/Txn/HeapFile.antt =====
-- src/storage/heap_file.h and heap_file.cpp, with src/common/rid.h: the rows of a table, on the pool of
-- the file's object and through the locks of the calling thread's transaction.
pub mod Rows
pub mod Access
pub mod GetRow
pub mod Delete
pub mod PutRow
pub mod NewPage
pub mod Insert
use flintdb.Prelude.{
  ℕ, zero, suc, ◌+◌, ◌-◌, ◌==◌, Bool, true, false, ◌&&◌, ◌||◌, Option, none, some, List, [], ◌∷◌,
  ◌++◌, length, ltb, leb, if◌then◌else◌, nat_key, has,
}
use flintdb.Storage.Page.{
  Page, page_size, header_size, slot_size, get_slot_count, is_deleted, get_record, insert_record,
  delete_record,
}
use flintdb.Txn.LockManager.{shared, exclusive}
use flintdb.Txn.PageAccess.{
  bad_argument, broken, Op, ◌>>=◌, ◌>>◌, give, stop, lock_page, fetch, store, allocate_heap_page,
  pages_on_disk,
}

pub record Rid : Type 0 where
  pub page_id : ℕ
  pub slot_id : ℕ

abbrev pub rid_eq : Rid → Rid → Bool
rid_eq a b = (a.page_id == b.page_id) && (a.slot_id == b.slot_id)

pub record HeapFile : Type 0 where
  pub object_id : ℕ
  pub page_ids : List ℕ

abbrev pub max_row_size : ℕ
max_row_size = page_size - header_size - slot_size

-- The constructor's loop: the ids below a number of pages.
unfoldable pub ids_below : ℕ → List ℕ
ids_below zero = []
ids_below (suc n) = ids_below n ++ n ∷ []

unfoldable pub open_heap : ℕ → Op HeapFile
open_heap o = do
  existing ← pages_on_disk o
  give (record { object_id = o; page_ids = ids_below existing })

-- page_ids_.back()
unfoldable pub last_page : List ℕ → Option ℕ
last_page [] = none
last_page (p ∷ []) = some p
last_page (p ∷ q ∷ ps) = last_page (q ∷ ps)

abbrev pub at_page : ℕ → ℕ → Rid
at_page pid slot = record { page_id = pid; slot_id = slot }

unfoldable pub put_in_new_page : ℕ → HeapFile → ℕ → List ℕ → Option (ℕ × Page) → Op (Rid × HeapFile)
put_in_new_page thread h pid row none = stop broken
put_in_new_page thread h pid row (some (slot, page)) = do
  store thread h.object_id pid page
  give (at_page pid slot, record h { page_ids = h.page_ids ++ pid ∷ [] })

unfoldable pub insert_in_new_page : ℕ → HeapFile → List ℕ → Op (Rid × HeapFile)
insert_in_new_page thread h row = do
  pid ← allocate_heap_page thread h.object_id
  lock_page thread h.object_id pid exclusive
  page ← fetch h.object_id pid
  put_in_new_page thread h pid row (insert_record page row)

unfoldable pub put_in_page : ℕ → HeapFile → ℕ → List ℕ → Option (ℕ × Page) → Op (Rid × HeapFile)
put_in_page thread h pid row none = insert_in_new_page thread h row
put_in_page thread h pid row (some (slot, page)) = do
  store thread h.object_id pid page
  give (at_page pid slot, h)

unfoldable pub insert_in_page : ℕ → HeapFile → ℕ → List ℕ → Op (Rid × HeapFile)
insert_in_page thread h pid row = do
  lock_page thread h.object_id pid exclusive
  page ← fetch h.object_id pid
  put_in_page thread h pid row (insert_record page row)

unfoldable pub insert_row : ℕ → HeapFile → List ℕ → Op (Rid × HeapFile)
insert_row thread h row =
    if ltb max_row_size (length row) then stop bad_argument else elim (last_page h.page_ids) [
      | none ↦ insert_in_new_page thread h row
      | some pid ↦ insert_in_page thread h pid row
    ]

-- `rid.slot_id >= page->GetSlotCount() || page->IsDeleted(rid.slot_id)`
abbrev pub is_missing : Page → ℕ → Bool
is_missing page slot = leb (get_slot_count page) slot || is_deleted page slot

unfoldable pub row_in : Page → ℕ → Option (List ℕ)
row_in page slot = if is_missing page slot then none else some (get_record page slot)

unfoldable pub get_row : ℕ → HeapFile → Rid → Op (Option (List ℕ))
get_row thread h rid =
    if has rid.page_id h.page_ids
    then (do
      lock_page thread h.object_id rid.page_id shared
      page ← fetch h.object_id rid.page_id
      give (row_in page rid.slot_id))
    else give none

-- The inner loop of Scan, over this many slots from one on.
unfoldable pub rows_from : Page → ℕ → ℕ → ℕ → List (Rid × List ℕ)
rows_from page pid slot zero = []
rows_from page pid slot (suc n) =
    let rest = rows_from page pid (slot + 1) n in
    if is_deleted page slot then rest else (at_page pid slot, get_record page slot) ∷ rest

unfoldable pub scan_pages : ℕ → ℕ → List ℕ → Op (List (Rid × List ℕ))
scan_pages thread o [] = give []
scan_pages thread o (pid ∷ pids) = do
  lock_page thread o pid shared
  page ← fetch o pid
  rest ← scan_pages thread o pids
  give (rows_from page pid 0 (get_slot_count page) ++ rest)

unfoldable pub scan : ℕ → HeapFile → Op (List (Rid × List ℕ))
scan thread h = scan_pages thread h.object_id h.page_ids

unfoldable pub num_rows : ℕ → HeapFile → Op ℕ
num_rows thread h = do rows ← scan thread h; give (length rows)

-- The inner loop of Find.
unfoldable pub find_from : (List ℕ → Bool) → Page → ℕ → ℕ → ℕ → Option Rid
find_from pred page pid slot zero = none
find_from pred page pid slot (suc n) =
    let rest = find_from pred page pid (slot + 1) n in
    if is_deleted page slot
    then rest
    else if pred (get_record page slot)
    then some (at_page pid slot)
    else rest

unfoldable pub find_pages : (List ℕ → Bool) → ℕ → ℕ → List ℕ → Op (Option Rid)
find_pages pred thread o [] = give none
find_pages pred thread o (pid ∷ pids) = do
  lock_page thread o pid shared
  page ← fetch o pid
  elim (find_from pred page pid 0 (get_slot_count page)) [
    | none ↦ find_pages pred thread o pids
    | some rid ↦ give (some rid)
  ]

unfoldable pub find : (List ℕ → Bool) → ℕ → HeapFile → Op (Option Rid)
find pred thread h = find_pages pred thread h.object_id h.page_ids

unfoldable pub delete_in : ℕ → HeapFile → Rid → Page → Op Bool
delete_in thread h rid page =
    if is_missing page rid.slot_id
    then give false
    else store thread h.object_id rid.page_id (delete_record page rid.slot_id) >> give true

unfoldable pub delete_row : ℕ → HeapFile → Rid → Op Bool
delete_row thread h rid =
    if has rid.page_id h.page_ids
    then (do
      lock_page thread h.object_id rid.page_id exclusive
      page ← fetch h.object_id rid.page_id
      delete_in thread h rid page)
    else give false
