-- ===== src/Storage/Page/Placed.antt =====
-- page.cpp: the stores that InsertRecord makes, one after another, for a record that fits.
use flintdb.Prelude.{
  ℕ, ◌+◌, ◌-◌, ◌<◌, ◌≤◌, ◌≡◌, ◌∙◌, inl, inr, List, arith, tests, length, ltb, Bool-cases,
}
use flintdb.Storage.Page.{
  page_size, slot_size, u16, Page, SlotEntry, get_slot_count, set_slot_count, get_pd_lower,
  set_pd_lower, get_pd_upper, set_pd_upper, get_slot_entry, set_slot_entry, copy_in, copy_out,
  place_record, without_flag, get_record,
}
use flintdb.Storage.Page.Fields.{
  field_laws, slot_count-set_self, pd_lower-set_self, pd_upper-set_self, copy_out-set_slot_count,
  copy_out-set_pd_lower, copy_out-set_pd_upper, slot_entry-copy_in, slot_entry-set_slot_entry_ne,
  slot_entry-set_slot_entry_self, copy_out-set_slot_entry, copy_out-copy_in_apart,
  copy_out-copy_in_self,
}
use flintdb.Storage.Page.WellFormed.{InPlace, IsWellFormed}

module _ (p : Page) (bytes : List ℕ) (w : IsWellFormed p)
    (fits : length bytes + slot_size ≤ get_pd_upper p - get_pd_lower p) where
  abbrev pub upper' : ℕ
  upper' = get_pd_upper p - length bytes

  unfoldable pub new_entry : SlotEntry
  new_entry = record { offset = upper'; length = length bytes }

  pub copied : Page
  copied = copy_in p upper' bytes

  pub entered : Page
  entered = set_slot_entry copied (get_slot_count p) new_entry

  pub counted : Page
  counted = set_slot_count entered (get_slot_count p + 1)

  pub lowered : Page
  lowered = set_pd_lower counted (get_pd_lower p + 4)

  abbrev pub placed : Page
  placed = place_record p bytes (get_pd_lower p) (u16 upper')

  pub mod_small : (n : ℕ) → n ≤ 4096 → u16 n ≡ n
  mod_small n h = omega arith

  -- None of the narrowing casts loses anything.
  pub placed-eq : placed ≡ set_pd_upper lowered upper'
  unfolding place_record lowered counted entered copied new_entry
  placed-eq = rw (
    mod_small upper' (omega (arith, w.upper)),
    mod_small (length bytes) (omega (arith, w.upper)),
    mod_small (get_slot_count p + 1) (omega (arith, w.upper, w.lower, w.ordered)),
    mod_small (get_pd_lower p + slot_size) (omega (arith, w.upper, w.lower, w.ordered)),
  )

  pub size-lowered : length lowered.buf ≡ page_size
  unfolding lowered counted entered copied
  size-lowered = simp field_laws w.size

  pub size-counted : length counted.buf ≡ page_size
  unfolding counted entered copied
  size-counted = simp field_laws w.size

  pub size-copied : length copied.buf ≡ page_size
  unfolding copied
  size-copied = simp field_laws w.size

  pub size-entered : length entered.buf ≡ page_size
  unfolding entered copied
  size-entered = simp field_laws w.size

  pub count-placed : get_slot_count placed ≡ get_slot_count p + 1
  unfolding lowered counted
  count-placed = rw placed-eq (
      simp field_laws (
        slot_count-set_self entered (get_slot_count p + 1) size-entered
          (omega (arith, w.lower, w.upper, w.ordered))))

  pub upper-placed : get_pd_upper placed ≡ upper'
  upper-placed =
      rw placed-eq (pd_upper-set_self lowered upper' size-lowered (omega (arith, w.upper)))

  pub lower-placed : get_pd_lower placed ≡ get_pd_lower p + 4
  unfolding lowered
  lower-placed = rw placed-eq (
      simp field_laws (
        pd_lower-set_self counted (get_pd_lower p + 4) size-counted
          (omega (arith, w.lower, w.upper, w.ordered))))

  pub entry-placed_new : get_slot_entry placed (get_slot_count p) ≡ new_entry
  unfolding lowered counted entered copied new_entry
  entry-placed_new = rw placed-eq (
      simp field_laws (
        slot_entry-set_slot_entry_self copied (get_slot_count p) new_entry
          (omega (arith, size-copied, w.lower, w.ordered, w.upper)) (omega (arith, w.upper))
          (omega (arith, w.upper))))

  pub entry-placed_old :
      (s : ℕ) → s < get_slot_count p → get_slot_entry placed s ≡ get_slot_entry p s
  unfolding lowered counted entered copied
  entry-placed_old s h = rw placed-eq (
      simp field_laws (
        slot_entry-set_slot_entry_ne copied (get_slot_count p) s new_entry (omega arith)
        ∙ slot_entry-copy_in p s upper' bytes (omega (arith, w.lower))))

  pub copy_out-placed : (off n : ℕ) → upper' ≤ off → copy_out placed off n ≡ copy_out copied off n
  unfolding lowered counted entered
  copy_out-placed off n h = rw placed-eq (
      copy_out-set_pd_upper _ upper' off n (omega (arith, w.lower))
      ∙ copy_out-set_pd_lower _ _ off n (omega (arith, w.lower))
      ∙ copy_out-set_slot_count _ _ off n (omega (arith, w.lower))
      ∙ copy_out-set_slot_entry copied (get_slot_count p) off n new_entry (omega (arith, w.lower)))

  pub record-placed_new : get_record placed (get_slot_count p) ≡ bytes
  unfolding get_record new_entry copied
  record-placed_new = rw entry-placed_new (
      rw (mod_deleted (length bytes) (omega (arith, w.upper))) (
        copy_out-placed upper' (length bytes) (omega arith)
        ∙ copy_out-copy_in_self p upper' bytes (omega (arith, w.size, w.upper))))
    where
      mod_deleted : (n : ℕ) → n ≤ 4096 → without_flag n ≡ n
      mod_deleted n h = omega arith

  pub record-placed_old : (s : ℕ) → s < get_slot_count p → get_record placed s ≡ get_record p s
  unfolding get_record copied
  record-placed_old s h = rw (entry-placed_old s h) (
      copy_out-placed _ _ (omega (arith, (w.in_place s h).above))
      ∙ copy_out-copy_in_apart p upper' _ _ bytes (omega (arith, (w.in_place s h).above)))

  pub InPlace-old : (s : ℕ) → s < get_slot_count p → InPlace placed s
  InPlace-old s h =
      let v = w.in_place s h in
      record {
        above = rw (entry-placed_old s h) (omega (arith, upper-placed, v.above));
        inside = rw (entry-placed_old s h) v.inside;
      }

  pub InPlace-new : (s : ℕ) → s ≡ get_slot_count p → InPlace placed s
  unfolding new_entry
  InPlace-new s e = rw e (record {
    above = rw entry-placed_new (omega (arith, upper-placed));
    inside = rw entry-placed_new (omega (arith, w.upper));
  })

  pub placed-IsWellFormed : IsWellFormed placed
  placed-IsWellFormed = record {
    size = rw placed-eq (simp field_laws size-lowered);
    lower = omega (arith, lower-placed, count-placed, w.lower);
    ordered = omega (arith, lower-placed, upper-placed);
    upper = omega (arith, upper-placed, w.upper);
    in_place = λ s h. elim (Bool-cases (ltb s (get_slot_count p))) [
      | inl old ↦ InPlace-old s (ground arith)
      | inr new ↦ InPlace-new s (omega (tests, count-placed))
    ];
  }
