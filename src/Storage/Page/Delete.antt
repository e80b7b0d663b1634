-- ===== src/Storage/Page/Delete.antt =====
-- page.cpp: DeleteRecord.
use flintdb.Prelude.{
  ℕ, ◌<◌, ◌≤◌, ◌≡◌, ◌≢◌, refl, true, arith, length, ==_iff, ◌==◌, Bool-cases, inl, inr,
}
use flintdb.Storage.Page.{
  page_size, Page, SlotEntry, get_slot_count, get_pd_lower, get_pd_upper, get_slot_entry, copy_out,
  without_flag, with_flag, get_record, delete_record, is_deleted, free_space,
}
use flintdb.Storage.Page.Fields.{
  field_laws, slot_entry-set_slot_entry_ne, slot_entry-set_slot_entry_self, copy_out-set_slot_entry,
}
use flintdb.Storage.Page.WellFormed.{IsWellFormed, free_space-eq}

module _ (p : Page) (s : ℕ) (w : IsWellFormed p) (h : s < get_slot_count p) where
  tombstone : SlotEntry
  tombstone = let e = get_slot_entry p s in record e { length = with_flag e.length }

  entry-deleted_self : get_slot_entry (delete_record p s) s ≡ tombstone
  unfolding delete_record tombstone
  entry-deleted_self =
      slot_entry-set_slot_entry_self p s _ (omega (arith, w.size, w.lower, w.ordered, w.upper))
        (omega (arith, (w.in_place s h).inside)) (omega arith)

  entry-deleted_ne : (j : ℕ) → s ≢ j → get_slot_entry (delete_record p s) j ≡ get_slot_entry p j
  unfolding delete_record
  entry-deleted_ne j ne = slot_entry-set_slot_entry_ne p s j _ ne

  count-deleted : get_slot_count (delete_record p s) ≡ get_slot_count p
  unfolding delete_record
  count-deleted = simp field_laws

  lower-deleted : get_pd_lower (delete_record p s) ≡ get_pd_lower p
  unfolding delete_record
  lower-deleted = simp field_laws

  upper-deleted : get_pd_upper (delete_record p s) ≡ get_pd_upper p
  unfolding delete_record
  upper-deleted = simp field_laws

  same_place :
      (j : ℕ)
      → ((get_slot_entry (delete_record p s) j).offset ≡ (get_slot_entry p j).offset)
        × (without_flag (get_slot_entry (delete_record p s) j).length
            ≡ without_flag (get_slot_entry p j).length)
  unfolding tombstone
  same_place j = elim (Bool-cases (s == j)) [
    | inl same ↦
        let e : j ≡ s = omega (arith, (==_iff s j).0 same) in
        rw (e, entry-deleted_self) (refl, omega arith)
    | inr other ↦ rw (entry-deleted_ne j (ground arith)) (refl, refl)
  ]

  copy_out-deleted :
      (off n : ℕ) → get_pd_upper p ≤ off → copy_out (delete_record p s) off n ≡ copy_out p off n
  unfolding delete_record
  copy_out-deleted off n a = copy_out-set_slot_entry p s off n _ (omega (arith, w.lower, w.ordered))

  record-deleted :
      (j : ℕ) → j < get_slot_count p → get_record (delete_record p s) j ≡ get_record p j
  unfolding get_record
  record-deleted j b =
      rw ((same_place j).0, (same_place j).1) (copy_out-deleted _ _ (w.in_place j b).above)

  deleted-IsWellFormed : IsWellFormed (delete_record p s)
  deleted-IsWellFormed = record {
    size = size-deleted;
    lower = omega (arith, lower-deleted, count-deleted, w.lower);
    ordered = omega (arith, lower-deleted, upper-deleted, w.ordered);
    upper = omega (arith, upper-deleted, w.upper);
    in_place = λ j b.
        let v = w.in_place j (omega (arith, count-deleted)) in
        record {
          above = omega (arith, upper-deleted, (same_place j).0, v.above);
          inside = omega (arith, (same_place j).0, (same_place j).1, v.inside);
        };
  }
    where
      size-deleted : length (delete_record p s).buf ≡ page_size
      size-deleted = unfold delete_record in simp field_laws w.size

-- What DeleteRecord of slot `s` makes of the page.
pub record Deleted (p q : Page) (s : ℕ) : Type 0 where
  pub well_formed : IsWellFormed q
  pub count : get_slot_count q ≡ get_slot_count p
  pub dead : is_deleted q s ≡ true
  pub kept : (j : ℕ) → j < get_slot_count p → get_record q j ≡ get_record p j
  pub kept_state : (j : ℕ) → s ≢ j → is_deleted q j ≡ is_deleted p j
  pub room : free_space q ≡ free_space p

-- On a well-formed page, DeleteRecord of a slot in use marks that slot, keeps the bytes of every record
-- and the state of every other slot, reclaims no space, and leaves the page well formed.
pub delete_record_lem :
    (p : Page) (s : ℕ) → IsWellFormed p → s < get_slot_count p → Deleted p (delete_record p s) s
unfolding is_deleted tombstone
delete_record_lem p s w h = record {
  well_formed = deleted-IsWellFormed p s w h;
  count = count-deleted p s w h;
  dead = rw (entry-deleted_self p s w h) (ground arith);
  kept = record-deleted p s w h;
  kept_state = λ j ne. rw (entry-deleted_ne p s w h j ne);
  room = omega (
    arith,
    free_space-eq p w.ordered,
    free_space-eq (delete_record p s) (deleted-IsWellFormed p s w h).ordered,
    upper-deleted p s w h,
    lower-deleted p s w h,
  );
}
