-- ===== src/Storage/Page/View.antt =====
-- page.cpp: a page as the list of its slots, a tombstone being `none`.
use flintdb.Prelude.{
  ℕ, zero, suc, ◌<◌, ◌≡◌, ◌≢◌, refl, sym, ap, ap₂, ◌∙◌, Option, none, some, List, [], ◌∷◌, ◌++◌,
  arith, tests, length, set, length-append, ltb, Bool-cases, inl, inr, if◌then◌else◌,
}
use native.Mathlib.Numerals.{add-one}
use flintdb.Storage.Page.{
  Page, get_slot_count, get_record, delete_record, is_deleted, insert_record, init_heap_page,
}
use flintdb.Storage.Page.WellFormed.{IsWellFormed, init_heap_page-IsWellFormed}
use flintdb.Storage.Page.Insert.{insert_record_lem}
use flintdb.Storage.Page.Delete.{delete_record_lem}

abbrev pub slot_view : Page → ℕ → Option (List ℕ)
slot_view p s = if is_deleted p s then none else some (get_record p s)

slots_below : Page → ℕ → List (Option (List ℕ))
slots_below p zero = []
slots_below p (suc n) = slots_below p n ++ slot_view p n ∷ []

-- The slots in use, in the order of their ids.
pub contents : Page → List (Option (List ℕ))
unfolding slots_below
contents p = slots_below p (get_slot_count p)

length-slots_below : (p : Page) (n : ℕ) → length (slots_below p n) ≡ n
unfolding slots_below
length-slots_below p zero = refl
length-slots_below p (suc n) =
    omega (arith, length-append (slots_below p n) (slot_view p n ∷ []), length-slots_below p n)

slots_below-ext :
    (p q : Page) (n : ℕ)
    → ((s : ℕ) → s < n → slot_view p s ≡ slot_view q s)
    → slots_below p n ≡ slots_below q n
unfolding slots_below
slots_below-ext p q zero h = refl
slots_below-ext p q (suc n) h =
    ap₂ (λ xs x. xs ++ x ∷ []) (slots_below-ext p q n (λ s lt. h s (omega arith)))
      (h n (omega arith))

set-append_left :
    (xs ys : List (Option (List ℕ))) (i : ℕ) (v : Option (List ℕ))
    → i < length xs
    → set (xs ++ ys) i v ≡ set xs i v ++ ys
set-append_left [] ys i v h = elim h [ ]
set-append_left (x ∷ xs) ys zero v h = refl
set-append_left (x ∷ xs) ys (suc i) v h = ap (◌∷◌ x) (set-append_left xs ys i v (omega arith))

set-append_last :
    (xs : List (Option (List ℕ))) (i : ℕ) (x v : Option (List ℕ))
    → i ≡ length xs
    → set (xs ++ x ∷ []) i v ≡ xs ++ v ∷ []
set-append_last [] zero x v h = refl
set-append_last [] (suc i) x v h = absurd (omega arith)
set-append_last (y ∷ xs) zero x v h = absurd (omega arith)
set-append_last (y ∷ xs) (suc i) x v h = ap (◌∷◌ y) (set-append_last xs i x v (omega arith))

slots_below-set :
    (p q : Page) (s n : ℕ) (v : Option (List ℕ))
    → s < n
    → slot_view q s ≡ v
    → ((j : ℕ) → j < n → s ≢ j → slot_view q j ≡ slot_view p j)
    → slots_below q n ≡ set (slots_below p n) s v
unfolding slots_below
slots_below-set p q s zero v h e f = elim h [ ]
slots_below-set p q s (suc n) v h e f = elim (Bool-cases (ltb s n)) [
  | inl lt ↦
      ap₂ (λ xs x. xs ++ x ∷ [])
        (slots_below-set p q s n v (omega tests) e (λ j b. f j (omega arith)))
        (f n (omega arith) (omega tests))
      ∙ sym (set-append_left (slots_below p n) _ s v (omega (tests, length-slots_below p n)))
  | inr ge ↦
      let at : s ≡ n = omega tests in
      ap₂ (λ xs x. xs ++ x ∷ []) (slots_below-ext q p n (λ j b. f j (omega arith) (omega arith)))
        (ap (slot_view q) (sym at) ∙ e)
      ∙ sym (set-append_last (slots_below p n) s _ v (omega (arith, length-slots_below p n)))
]

-- Seen as the list of its slots, a fresh heap page is empty.
contents-init : (p : Page) (page_id : ℕ) → contents (init_heap_page p page_id) ≡ []
unfolding contents
contents-init p page_id = rw ((init_heap_page-IsWellFormed p page_id).1)

-- Seen as the list of its slots, a page to which InsertRecord adds a record gets that record at the
-- end, and the slot that is returned is its index.
pub contents-insert_record :
    (p q : Page) (s : ℕ) (bytes : List ℕ)
    → IsWellFormed p
    → insert_record p bytes ≡ some (s, q)
    → (contents q ≡ contents p ++ some bytes ∷ []) × (s ≡ length (contents p))
unfolding contents
contents-insert_record p q s bytes w h =
    let i = insert_record_lem p q s bytes w h in
    (
      rw (i.count ∙ add-one (get_slot_count p)) (
          ap₂ (λ xs x. xs ++ x ∷ [])
            (slots_below-ext q p (get_slot_count p) λ j lt. rw (i.kept j lt, i.kept_state j lt))
            (rw (← i.slot, i.live) (ap some i.stored))),
      i.slot ∙ sym (length-slots_below p (get_slot_count p)),
    )

-- Seen as the list of its slots, a page on which DeleteRecord marks a slot in use has a tombstone
-- there, and every other slot is as before.
pub contents-delete_record :
    (p : Page) (s : ℕ)
    → IsWellFormed p
    → s < get_slot_count p
    → contents (delete_record p s) ≡ set (contents p) s none
unfolding contents
contents-delete_record p s w h =
    let d = delete_record_lem p s w h in
    rw d.count (
      slots_below-set p (delete_record p s) s (get_slot_count p) none h (rw d.dead)
        λ j lt ne. rw (d.kept j lt, d.kept_state j ne))
