-- ===== src/Tests/Page.antt =====
-- A heap page with one record, as in tests/test_page.cpp.
use flintdb.Prelude.{
  ◌<◌, ◌≡◌, ◌↔◌, refl, ◌+◌, true, false, none, some, [], ◌∷◌, ◌++◌, arith, length, set,
}
use flintdb.Bytes.{read_at, write_at, read_bytes, write_bytes, to_bytes, from_bytes}
use flintdb.Storage.Page.{
  slot_size, Page, zeroed, new_page, get_page_id, set_page_id, set_page_type, get_slot_count,
  set_slot_count, get_pd_lower, set_pd_lower, get_pd_upper, set_pd_upper, get_slot_entry,
  set_slot_entry, copy_in, copy_out, init_heap_page, place_record, insert_record, get_record,
  delete_record, is_deleted, free_space,
}
use flintdb.Storage.Page.WellFormed.{IsWellFormed, init_heap_page-IsWellFormed}
use flintdb.Storage.Page.Insert.{Inserted, insert_record_lem, insert_record-eq-none}
use flintdb.Storage.Page.Delete.{Deleted, delete_record_lem}
use flintdb.Storage.Page.View.{contents, contents-insert_record, contents-delete_record}

program : Unit {0}
unfolding read_at write_at read_bytes write_bytes to_bytes from_bytes zeroed new_page get_page_id
    set_page_id set_page_type get_slot_count set_slot_count get_pd_lower set_pd_lower get_pd_upper
    set_pd_upper get_slot_entry set_slot_entry copy_in copy_out init_heap_page place_record
    insert_record get_record delete_record is_deleted free_space
program = tt

fresh : Page
fresh = init_heap_page new_page 5

fresh-IsWellFormed : IsWellFormed fresh
unfolding fresh
fresh-IsWellFormed = (init_heap_page-IsWellFormed new_page 5).0

one_row : Page
one_row = place_record fresh (72 ∷ 105 ∷ []) 16 4094

stored : insert_record fresh (72 ∷ 105 ∷ []) ≡ some (0, one_row)
unfolding program fresh one_row
stored = refl

runs :
    (get_page_id one_row ≡ 5)
    × (get_record one_row 0 ≡ 72 ∷ 105 ∷ [])
    × (is_deleted one_row 0 ≡ false)
    × (is_deleted (delete_record one_row 0) 0 ≡ true)
    × (get_record (delete_record one_row 0) 0 ≡ 72 ∷ 105 ∷ [])
    × (free_space one_row ≡ 4074)
unfolding program fresh one_row
runs = (refl, refl, refl, refl, refl, refl)

init_heap_page-IsWellFormed_example :
    IsWellFormed (init_heap_page new_page 5)
    × (get_slot_count (init_heap_page new_page 5) ≡ 0)
    × (free_space (init_heap_page new_page 5) ≡ 4080)
init_heap_page-IsWellFormed_example = init_heap_page-IsWellFormed new_page 5

insert_record_lem_example : Inserted fresh one_row 0 (72 ∷ 105 ∷ [])
insert_record_lem_example =
    insert_record_lem fresh one_row 0 (72 ∷ 105 ∷ []) fresh-IsWellFormed stored

one_row-IsWellFormed : IsWellFormed one_row
one_row-IsWellFormed = insert_record_lem_example.well_formed

insert_record-eq-none_example :
    (insert_record one_row (72 ∷ []) ≡ none) ↔ (free_space one_row < 1 + slot_size)
insert_record-eq-none_example = insert_record-eq-none one_row (72 ∷ []) one_row-IsWellFormed

one_slot : get_slot_count one_row ≡ 1
unfolding program fresh one_row
one_slot = refl

delete_record_lem_example : Deleted one_row (delete_record one_row 0) 0
delete_record_lem_example =
    delete_record_lem one_row 0 one_row-IsWellFormed (omega (arith, one_slot))

contents-insert_record_example :
    (contents one_row ≡ contents fresh ++ some (72 ∷ 105 ∷ []) ∷ []) × (0 ≡ length (contents fresh))
contents-insert_record_example =
    contents-insert_record fresh one_row 0 (72 ∷ 105 ∷ []) fresh-IsWellFormed stored

contents-delete_record_example : contents (delete_record one_row 0) ≡ set (contents one_row) 0 none
contents-delete_record_example =
    contents-delete_record one_row 0 one_row-IsWellFormed (omega (arith, one_slot))
