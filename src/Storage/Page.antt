-- ===== src/Storage/Page.antt =====
-- src/storage/page.h and page.cpp: the slotted page over its raw bytes, with the sizes and the page
-- type of src/common/config.h. Asserted conditions are hypotheses of the theorems.
pub mod Fields
pub mod WellFormed
mod Placed
pub mod Insert
pub mod Delete
pub mod View
use flintdb.Prelude.{
  ℕ, ◌+◌, ◌-◌, ◌*◌, ◌%◌, ◌^◌, Bool, Option, none, some, List, arith, length, replicate, ltb, leb,
  if◌then◌else◌,
}
use flintdb.Bytes.{read_bytes, write_bytes, read_at, write_at}

abbrev pub page_size : ℕ
page_size = 4096

abbrev pub header_size : ℕ
header_size = 16

abbrev pub slot_size : ℕ
slot_size = 4

abbrev pub type_heap : ℕ
type_heap = 1

abbrev pub deleted_flag : ℕ
deleted_flag = 0x8000

-- static_cast<uint16_t>
abbrev pub u16 : ℕ → ℕ
u16 v = v % 2 ^ 16

abbrev pub u32 : ℕ → ℕ
u32 v = v % 2 ^ 32

pub record Page : Type 0 where
  pub buf : List ℕ

pub record SlotEntry : Type 0 where
  pub offset : ℕ
  pub length : ℕ

unfoldable pub zeroed : List ℕ
zeroed = replicate page_size 0

unfoldable pub new_page : Page
new_page = record { buf = zeroed }

unfoldable pub get_page_id : Page → ℕ
get_page_id p = read_at 4 p.buf 0

unfoldable pub set_page_id : Page → ℕ → Page
set_page_id p v = record { buf = write_at 4 p.buf 0 v }

unfoldable pub get_page_type : Page → ℕ
get_page_type p = read_at 2 p.buf 4

unfoldable pub set_page_type : Page → ℕ → Page
set_page_type p v = record { buf = write_at 2 p.buf 4 v }

unfoldable pub get_slot_count : Page → ℕ
get_slot_count p = read_at 2 p.buf 6

unfoldable pub set_slot_count : Page → ℕ → Page
set_slot_count p v = record { buf = write_at 2 p.buf 6 v }

unfoldable pub get_pd_lower : Page → ℕ
get_pd_lower p = read_at 2 p.buf 8

unfoldable pub set_pd_lower : Page → ℕ → Page
set_pd_lower p v = record { buf = write_at 2 p.buf 8 v }

unfoldable pub get_pd_upper : Page → ℕ
get_pd_upper p = read_at 2 p.buf 10

unfoldable pub set_pd_upper : Page → ℕ → Page
set_pd_upper p v = record { buf = write_at 2 p.buf 10 v }

abbrev pub slot_offset : ℕ → ℕ
slot_offset s = header_size + s * slot_size

unfoldable pub get_slot_entry : Page → ℕ → SlotEntry
get_slot_entry p s = record {
  offset = read_at 2 p.buf (slot_offset s);
  length = read_at 2 p.buf (slot_offset s + 2);
}

unfoldable pub set_slot_entry : Page → ℕ → SlotEntry → Page
set_slot_entry p s e = record {
  buf = write_at 2 (write_at 2 p.buf (slot_offset s) e.offset) (slot_offset s + 2) e.length;
}

-- std::memcpy(buf_.data() + off, data.data(), len)
unfoldable pub copy_in : Page → ℕ → List ℕ → Page
copy_in p off bs = record { buf = write_bytes p.buf off bs }

unfoldable pub copy_out : Page → ℕ → ℕ → List ℕ
copy_out p off n = read_bytes p.buf off n

unfoldable pub init_heap_page : Page → ℕ → Page
init_heap_page p page_id =
    let cleared : Page = record { buf = zeroed } in
    set_pd_upper
      (set_pd_lower (set_slot_count (set_page_type (set_page_id cleared page_id) type_heap) 0)
        (u16 header_size))
      (u16 page_size)

-- The stores of InsertRecord, once the record is known to fit.
unfoldable pub place_record : Page → List ℕ → ℕ → ℕ → Page
place_record p bytes pd_lower new_pd_upper =
    let count = get_slot_count p in
    let copied = copy_in p new_pd_upper bytes in
    let entered =
      set_slot_entry copied count (record { offset = new_pd_upper; length = u16 (length bytes) }) in
    set_pd_upper
      (set_pd_lower (set_slot_count entered (u16 (count + 1))) (u16 (pd_lower + slot_size)))
      new_pd_upper

unfoldable pub insert_record : Page → List ℕ → Option (ℕ × Page)
insert_record p bytes =
    let pd_lower = get_pd_lower p in
    let pd_upper = get_pd_upper p in
    if leb deleted_flag (length bytes)
    then none
    else if ltb pd_upper pd_lower
    then none
    else if ltb (pd_upper - pd_lower) (length bytes + slot_size)
    then none
    else some (get_slot_count p, place_record p bytes pd_lower (u16 (pd_upper - length bytes)))

-- `e.length & ~kDeletedFlag`, `e.length | kDeletedFlag` and `e.length & kDeletedFlag` on a uint16_t,
-- of which the flag is the top bit.
abbrev pub without_flag : ℕ → ℕ
without_flag l = l % deleted_flag

abbrev pub with_flag : ℕ → ℕ
with_flag l = l % deleted_flag + deleted_flag

abbrev pub has_flag : ℕ → Bool
has_flag l = leb deleted_flag l

unfoldable pub get_record : Page → ℕ → List ℕ
get_record p s = copy_out p (get_slot_entry p s).offset (without_flag (get_slot_entry p s).length)

unfoldable pub delete_record : Page → ℕ → Page
delete_record p s =
    let e = get_slot_entry p s in set_slot_entry p s (record e { length = with_flag e.length })

unfoldable pub is_deleted : Page → ℕ → Bool
is_deleted p s = has_flag (get_slot_entry p s).length

unfoldable pub free_space : Page → ℕ
free_space p = if ltb (get_pd_upper p) (get_pd_lower p) then 0 else get_pd_upper p - get_pd_lower p
