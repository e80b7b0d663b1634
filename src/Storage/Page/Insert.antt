-- ===== src/Storage/Page/Insert.antt =====
-- page.cpp: InsertRecord.
use flintdb.Prelude.{ℕ, ◌+◌, ◌-◌, ◌<◌, ◌≤◌, ◌≡◌, ◌↔◌, refl, false, none, some, List, arith, length}
use flintdb.Storage.Page.{
  slot_size, u16, Page, get_slot_count, get_pd_lower, get_pd_upper, place_record, insert_record,
  get_record, is_deleted, free_space,
}
use flintdb.Storage.Page.WellFormed.{IsWellFormed, free_space-eq}
use flintdb.Storage.Page.Placed.{
  new_entry, count-placed, upper-placed, lower-placed, entry-placed_new, entry-placed_old,
  record-placed_new, record-placed_old, placed-IsWellFormed,
}

-- What a successful InsertRecord did: `q` is the new page and `s` the slot.
pub record Inserted (p q : Page) (s : ℕ) (bytes : List ℕ) : Type 0 where
  pub slot : s ≡ get_slot_count p
  pub well_formed : IsWellFormed q
  pub count : get_slot_count q ≡ get_slot_count p + 1
  pub stored : get_record q s ≡ bytes
  pub live : is_deleted q s ≡ false
  pub kept : (j : ℕ) → j < get_slot_count p → get_record q j ≡ get_record p j
  pub kept_state : (j : ℕ) → j < get_slot_count p → is_deleted q j ≡ is_deleted p j
  pub room : free_space q + length bytes + slot_size ≡ free_space p

insert_fits :
    (p q : Page) (s : ℕ) (bytes : List ℕ)
    → insert_record p bytes ≡ some (s, q)
    → (length bytes + slot_size ≤ get_pd_upper p - get_pd_lower p)
      × (s ≡ get_slot_count p)
      × (q ≡ place_record p bytes (get_pd_lower p) (u16 (get_pd_upper p - length bytes)))
unfolding insert_record
insert_fits p q s bytes h = (ground arith, ground arith, ground arith)

-- A record that InsertRecord puts on a well-formed page is read back whole at the new slot, which is
-- live; the earlier records and tombstones are as they were; the page is well formed again; and the
-- space that was used is the record's length and one slot entry.
pub insert_record_lem :
    (p q : Page) (s : ℕ) (bytes : List ℕ)
    → IsWellFormed p
    → insert_record p bytes ≡ some (s, q)
    → Inserted p q s bytes
unfolding is_deleted new_entry
insert_record_lem p q s bytes w h =
    let (fits, slot, e) = insert_fits p q s bytes h in
    rw (slot, e)
      (record {
        slot = refl;
        well_formed = placed-IsWellFormed p bytes w fits;
        count = count-placed p bytes w fits;
        stored = record-placed_new p bytes w fits;
        live = rw (entry-placed_new p bytes w fits) (ground (arith, w.upper));
        kept = record-placed_old p bytes w fits;
        kept_state = λ j lt. rw (entry-placed_old p bytes w fits j lt);
        room = omega (
          arith,
          free_space-eq p w.ordered,
          free_space-eq
              (place_record p bytes (get_pd_lower p) (u16 (get_pd_upper p - length bytes)))
              (placed-IsWellFormed p bytes w fits).ordered,
          upper-placed p bytes w fits,
          lower-placed p bytes w fits,
        );
      })

-- On a well-formed page InsertRecord refuses exactly the records that do not fit in the free space
-- together with their slot entry.
pub insert_record-eq-none :
    (p : Page) (bytes : List ℕ)
    → IsWellFormed p
    → (insert_record p bytes ≡ none) ↔ (free_space p < length bytes + slot_size)
unfolding insert_record free_space
insert_record-eq-none p bytes w =
    (λ h. ground (arith, w.upper, w.ordered), λ h. ground (arith, w.upper, w.ordered))
