-- ===== src/Storage/Page/WellFormed.antt =====
-- page.cpp: the invariant of a slotted page, and InitHeapPage. A well-formed page has its slot
-- directory below its free space and every record above it.
use flintdb.Prelude.{ℕ, ◌+◌, ◌-◌, ◌<◌, ◌≤◌, ◌≡◌, arith, length, length-replicate}
use flintdb.Storage.Page.{
  page_size, slot_offset, type_heap, Page, set_page_id, set_page_type, get_slot_count,
  set_slot_count, get_pd_lower, set_pd_lower, get_pd_upper, get_slot_entry, init_heap_page,
  without_flag, free_space, zeroed,
}
use flintdb.Storage.Page.Fields.{
  field_laws, slot_count-set_self, pd_lower-set_self, pd_upper-set_self,
}

-- The record of slot `s` lies between the free space and the end of the page.
pub record InPlace (p : Page) (s : ℕ) : Type 0 where
  pub above : get_pd_upper p ≤ (get_slot_entry p s).offset
  pub inside : (get_slot_entry p s).offset + without_flag (get_slot_entry p s).length ≤ page_size

pub record IsWellFormed (p : Page) : Type 0 where
  pub size : length p.buf ≡ page_size
  pub lower : get_pd_lower p ≡ slot_offset (get_slot_count p)
  pub ordered : get_pd_lower p ≤ get_pd_upper p
  pub upper : get_pd_upper p ≤ page_size
  pub in_place : (s : ℕ) → s < get_slot_count p → InPlace p s

pub free_space-eq :
    (p : Page) → get_pd_lower p ≤ get_pd_upper p → free_space p ≡ get_pd_upper p - get_pd_lower p
unfolding free_space
free_space-eq p h = ground arith

size-zeroed : length zeroed ≡ page_size
unfolding zeroed
size-zeroed = length-replicate {A = ℕ} page_size 0

module _ (p : Page) (page_id : ℕ) where
  typed : Page
  typed = set_page_type (set_page_id (record { buf = zeroed }) page_id) type_heap

  size-typed : length typed.buf ≡ page_size
  unfolding typed zeroed
  size-typed = simp field_laws size-zeroed

  init-size : length (init_heap_page p page_id).buf ≡ page_size
  unfolding init_heap_page typed
  init-size = simp field_laws size-zeroed

  init-count : get_slot_count (init_heap_page p page_id) ≡ 0
  unfolding init_heap_page typed
  init-count = simp field_laws (slot_count-set_self typed 0 size-typed (omega arith))

  init-lower : get_pd_lower (init_heap_page p page_id) ≡ 16
  unfolding init_heap_page typed
  init-lower =
      simp field_laws
        (pd_lower-set_self (set_slot_count typed 0) 16 (simp field_laws size-zeroed) (omega arith))

  init-upper : get_pd_upper (init_heap_page p page_id) ≡ page_size
  unfolding init_heap_page typed
  init-upper =
      pd_upper-set_self (set_pd_lower (set_slot_count typed 0) 16) page_size
        (simp field_laws size-zeroed) (omega arith)

-- InitHeapPage makes a well-formed page with no slots and all the space above the header free.
pub init_heap_page-IsWellFormed :
    (p : Page) (page_id : ℕ)
    → IsWellFormed (init_heap_page p page_id)
      × (get_slot_count (init_heap_page p page_id) ≡ 0)
      × (free_space (init_heap_page p page_id) ≡ 4080)
init_heap_page-IsWellFormed p page_id =
    let q = init_heap_page p page_id in
    (
      record {
        size = init-size p page_id;
        lower = omega (arith, init-lower p page_id, init-count p page_id);
        ordered = omega (arith, init-lower p page_id, init-upper p page_id);
        upper = omega (arith, init-upper p page_id);
        in_place = λ s h. absurd (omega (arith, init-count p page_id));
      },
      init-count p page_id,
      omega (
        arith,
        free_space-eq q (omega (arith, init-lower p page_id, init-upper p page_id)),
        init-lower p page_id,
        init-upper p page_id,
      ),
    )
