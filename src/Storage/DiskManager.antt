-- ===== src/Storage/DiskManager.antt =====
-- src/storage/disk_manager.h and disk_manager.cpp: one file of whole pages. A call of the system
-- transfers all that it is asked for; the loops over short transfers are not modelled, and
-- `none` is the exception for a page beyond the end of the file.
use flintdb.Prelude.{ℕ, ◌+◌, ◌/◌, ◌%◌, Option, none, some, List, leb, ◌==◌, if◌then◌else◌}
use flintdb.Storage.Page.{page_size, zeroed, u32}

-- `pages` is the file, page by page, and `next_page_id` its length in pages.
pub record DiskManager : Type 0 where
  pub pages : ℕ → List ℕ
  pub next_page_id : ℕ

-- The constructor refuses a file whose size is not a whole number of pages.
unfoldable pub open_file : (ℕ → List ℕ) → ℕ → Option DiskManager
open_file pages st_size =
    if st_size % page_size == 0
    then some (record { pages = pages; next_page_id = u32 (st_size / page_size) })
    else none

-- ftruncate to the new length fills with zeros.
unfoldable pub allocate_page : DiskManager → DiskManager × ℕ
allocate_page d =
    let id = d.next_page_id in
    (record { pages = λ p. if p == id then zeroed else d.pages p; next_page_id = u32 (id + 1) }, id)

unfoldable pub read_page : DiskManager → ℕ → Option (List ℕ)
read_page d page_id = if leb d.next_page_id page_id then none else some (d.pages page_id)

unfoldable pub write_page : DiskManager → ℕ → List ℕ → Option DiskManager
write_page d page_id buf =
    if leb d.next_page_id page_id
    then none
    else some (record d { pages = λ p. if p == page_id then buf else d.pages p })

abbrev pub num_pages : DiskManager → ℕ
num_pages d = d.next_page_id

unfoldable pub reset_file : DiskManager → DiskManager
reset_file d = record d { next_page_id = 0 }
