-- ===== src/Storage/Page/Fields.antt =====
-- page.cpp: each accessor after each store. The header fields, the slot directory and the record bytes
-- are apart from one another.
use flintdb.Prelude.{ℕ, ◌+◌, ◌^◌, ◌<◌, ◌≤◌, ◌≡◌, ◌≢◌, ◌∙◌, ◌⊎◌, inl, inr, List, arith, length}
use flintdb.Bytes.{
  length-write_at, length-write_bytes, read_at-write_at_self, read_at-write_at-Apart,
  read_at-write_bytes-Apart, read_bytes-write_at-Apart, read_bytes-write_bytes-Apart,
  read_bytes-write_bytes_self,
}
use flintdb.Storage.Page.{
  page_size, slot_offset, Page, SlotEntry, set_page_id, set_page_type, get_slot_count,
  set_slot_count, get_pd_lower, set_pd_lower, get_pd_upper, set_pd_upper, get_slot_entry,
  set_slot_entry, copy_in, copy_out,
}

pub slot_count-set_page_id :
    (p : Page) (v : ℕ) → get_slot_count (set_page_id p v) ≡ get_slot_count p
unfolding get_slot_count set_page_id
slot_count-set_page_id p v = read_at-write_at-Apart 2 4 p.buf 0 6 v (inl (omega arith))

pub slot_count-set_page_type :
    (p : Page) (v : ℕ) → get_slot_count (set_page_type p v) ≡ get_slot_count p
unfolding get_slot_count set_page_type
slot_count-set_page_type p v = read_at-write_at-Apart 2 2 p.buf 4 6 v (inl (omega arith))

pub slot_count-set_pd_lower :
    (p : Page) (v : ℕ) → get_slot_count (set_pd_lower p v) ≡ get_slot_count p
unfolding get_slot_count set_pd_lower
slot_count-set_pd_lower p v = read_at-write_at-Apart 2 2 p.buf 8 6 v (inr (omega arith))

pub slot_count-set_pd_upper :
    (p : Page) (v : ℕ) → get_slot_count (set_pd_upper p v) ≡ get_slot_count p
unfolding get_slot_count set_pd_upper
slot_count-set_pd_upper p v = read_at-write_at-Apart 2 2 p.buf 10 6 v (inr (omega arith))

pub pd_lower-set_page_id : (p : Page) (v : ℕ) → get_pd_lower (set_page_id p v) ≡ get_pd_lower p
unfolding get_pd_lower set_page_id
pd_lower-set_page_id p v = read_at-write_at-Apart 2 4 p.buf 0 8 v (inl (omega arith))

pub pd_lower-set_page_type : (p : Page) (v : ℕ) → get_pd_lower (set_page_type p v) ≡ get_pd_lower p
unfolding get_pd_lower set_page_type
pd_lower-set_page_type p v = read_at-write_at-Apart 2 2 p.buf 4 8 v (inl (omega arith))

pub pd_lower-set_slot_count :
    (p : Page) (v : ℕ) → get_pd_lower (set_slot_count p v) ≡ get_pd_lower p
unfolding get_pd_lower set_slot_count
pd_lower-set_slot_count p v = read_at-write_at-Apart 2 2 p.buf 6 8 v (inl (omega arith))

pub pd_lower-set_pd_upper : (p : Page) (v : ℕ) → get_pd_lower (set_pd_upper p v) ≡ get_pd_lower p
unfolding get_pd_lower set_pd_upper
pd_lower-set_pd_upper p v = read_at-write_at-Apart 2 2 p.buf 10 8 v (inr (omega arith))

pub pd_upper-set_page_id : (p : Page) (v : ℕ) → get_pd_upper (set_page_id p v) ≡ get_pd_upper p
unfolding get_pd_upper set_page_id
pd_upper-set_page_id p v = read_at-write_at-Apart 2 4 p.buf 0 10 v (inl (omega arith))

pub pd_upper-set_page_type : (p : Page) (v : ℕ) → get_pd_upper (set_page_type p v) ≡ get_pd_upper p
unfolding get_pd_upper set_page_type
pd_upper-set_page_type p v = read_at-write_at-Apart 2 2 p.buf 4 10 v (inl (omega arith))

pub pd_upper-set_slot_count :
    (p : Page) (v : ℕ) → get_pd_upper (set_slot_count p v) ≡ get_pd_upper p
unfolding get_pd_upper set_slot_count
pd_upper-set_slot_count p v = read_at-write_at-Apart 2 2 p.buf 6 10 v (inl (omega arith))

pub pd_upper-set_pd_lower : (p : Page) (v : ℕ) → get_pd_upper (set_pd_lower p v) ≡ get_pd_upper p
unfolding get_pd_upper set_pd_lower
pd_upper-set_pd_lower p v = read_at-write_at-Apart 2 2 p.buf 8 10 v (inl (omega arith))

pub slot_count-set_slot_entry :
    (p : Page) (s : ℕ) (e : SlotEntry) → get_slot_count (set_slot_entry p s e) ≡ get_slot_count p
unfolding get_slot_count set_slot_entry
slot_count-set_slot_entry p s e =
    read_at-write_at-Apart 2 2 _ (slot_offset s + 2) 6 e.length (inr (omega arith))
    ∙ read_at-write_at-Apart 2 2 p.buf (slot_offset s) 6 e.offset (inr (omega arith))

pub slot_count-copy_in :
    (p : Page) (off : ℕ) (bs : List ℕ)
    → 16 ≤ off
    → get_slot_count (copy_in p off bs) ≡ get_slot_count p
unfolding get_slot_count copy_in
slot_count-copy_in p off bs h = read_at-write_bytes-Apart 2 p.buf bs off 6 (inr (omega arith))

pub slot_count-set_self :
    (p : Page) (v : ℕ)
    → length p.buf ≡ page_size
    → v < 2 ^ 16
    → get_slot_count (set_slot_count p v) ≡ v
unfolding get_slot_count set_slot_count
slot_count-set_self p v h b = read_at-write_at_self 2 p.buf 6 v (omega arith) b

pub pd_lower-set_slot_entry :
    (p : Page) (s : ℕ) (e : SlotEntry) → get_pd_lower (set_slot_entry p s e) ≡ get_pd_lower p
unfolding get_pd_lower set_slot_entry
pd_lower-set_slot_entry p s e =
    read_at-write_at-Apart 2 2 _ (slot_offset s + 2) 8 e.length (inr (omega arith))
    ∙ read_at-write_at-Apart 2 2 p.buf (slot_offset s) 8 e.offset (inr (omega arith))

pub pd_lower-copy_in :
    (p : Page) (off : ℕ) (bs : List ℕ) → 16 ≤ off → get_pd_lower (copy_in p off bs) ≡ get_pd_lower p
unfolding get_pd_lower copy_in
pd_lower-copy_in p off bs h = read_at-write_bytes-Apart 2 p.buf bs off 8 (inr (omega arith))

pub pd_lower-set_self :
    (p : Page) (v : ℕ) → length p.buf ≡ page_size → v < 2 ^ 16 → get_pd_lower (set_pd_lower p v) ≡ v
unfolding get_pd_lower set_pd_lower
pd_lower-set_self p v h b = read_at-write_at_self 2 p.buf 8 v (omega arith) b

pub pd_upper-set_slot_entry :
    (p : Page) (s : ℕ) (e : SlotEntry) → get_pd_upper (set_slot_entry p s e) ≡ get_pd_upper p
unfolding get_pd_upper set_slot_entry
pd_upper-set_slot_entry p s e =
    read_at-write_at-Apart 2 2 _ (slot_offset s + 2) 10 e.length (inr (omega arith))
    ∙ read_at-write_at-Apart 2 2 p.buf (slot_offset s) 10 e.offset (inr (omega arith))

pub pd_upper-copy_in :
    (p : Page) (off : ℕ) (bs : List ℕ) → 16 ≤ off → get_pd_upper (copy_in p off bs) ≡ get_pd_upper p
unfolding get_pd_upper copy_in
pd_upper-copy_in p off bs h = read_at-write_bytes-Apart 2 p.buf bs off 10 (inr (omega arith))

pub pd_upper-set_self :
    (p : Page) (v : ℕ) → length p.buf ≡ page_size → v < 2 ^ 16 → get_pd_upper (set_pd_upper p v) ≡ v
unfolding get_pd_upper set_pd_upper
pd_upper-set_self p v h b = read_at-write_at_self 2 p.buf 10 v (omega arith) b

entry_path :
    {a b c d : ℕ}
    → a ≡ c
    → b ≡ d
    → Path SlotEntry (record { offset = a; length = b }) (record { offset = c; length = d })
entry_path p q = λ i. record { offset = p i; length = q i }

pub slot_entry-set_page_id :
    (p : Page) (s v : ℕ) → get_slot_entry (set_page_id p v) s ≡ get_slot_entry p s
unfolding get_slot_entry set_page_id
slot_entry-set_page_id p s v =
    entry_path (read_at-write_at-Apart 2 4 p.buf 0 (slot_offset s) v (inl (omega arith)))
      (read_at-write_at-Apart 2 4 p.buf 0 (slot_offset s + 2) v (inl (omega arith)))

pub copy_out-set_page_id :
    (p : Page) (v off n : ℕ) → 16 ≤ off → copy_out (set_page_id p v) off n ≡ copy_out p off n
unfolding copy_out set_page_id
copy_out-set_page_id p v off n h = read_bytes-write_at-Apart 4 p.buf 0 v off n (inl (omega arith))

pub length-set_page_id : (p : Page) (v : ℕ) → length (set_page_id p v).buf ≡ length p.buf
unfolding set_page_id
length-set_page_id p v = length-write_at 4 p.buf 0 v

pub slot_entry-set_page_type :
    (p : Page) (s v : ℕ) → get_slot_entry (set_page_type p v) s ≡ get_slot_entry p s
unfolding get_slot_entry set_page_type
slot_entry-set_page_type p s v =
    entry_path (read_at-write_at-Apart 2 2 p.buf 4 (slot_offset s) v (inl (omega arith)))
      (read_at-write_at-Apart 2 2 p.buf 4 (slot_offset s + 2) v (inl (omega arith)))

pub copy_out-set_page_type :
    (p : Page) (v off n : ℕ) → 16 ≤ off → copy_out (set_page_type p v) off n ≡ copy_out p off n
unfolding copy_out set_page_type
copy_out-set_page_type p v off n h = read_bytes-write_at-Apart 2 p.buf 4 v off n (inl (omega arith))

pub length-set_page_type : (p : Page) (v : ℕ) → length (set_page_type p v).buf ≡ length p.buf
unfolding set_page_type
length-set_page_type p v = length-write_at 2 p.buf 4 v

pub slot_entry-set_slot_count :
    (p : Page) (s v : ℕ) → get_slot_entry (set_slot_count p v) s ≡ get_slot_entry p s
unfolding get_slot_entry set_slot_count
slot_entry-set_slot_count p s v =
    entry_path (read_at-write_at-Apart 2 2 p.buf 6 (slot_offset s) v (inl (omega arith)))
      (read_at-write_at-Apart 2 2 p.buf 6 (slot_offset s + 2) v (inl (omega arith)))

pub copy_out-set_slot_count :
    (p : Page) (v off n : ℕ) → 16 ≤ off → copy_out (set_slot_count p v) off n ≡ copy_out p off n
unfolding copy_out set_slot_count
copy_out-set_slot_count p v off n h =
    read_bytes-write_at-Apart 2 p.buf 6 v off n (inl (omega arith))

pub length-set_slot_count : (p : Page) (v : ℕ) → length (set_slot_count p v).buf ≡ length p.buf
unfolding set_slot_count
length-set_slot_count p v = length-write_at 2 p.buf 6 v

pub slot_entry-set_pd_lower :
    (p : Page) (s v : ℕ) → get_slot_entry (set_pd_lower p v) s ≡ get_slot_entry p s
unfolding get_slot_entry set_pd_lower
slot_entry-set_pd_lower p s v =
    entry_path (read_at-write_at-Apart 2 2 p.buf 8 (slot_offset s) v (inl (omega arith)))
      (read_at-write_at-Apart 2 2 p.buf 8 (slot_offset s + 2) v (inl (omega arith)))

pub copy_out-set_pd_lower :
    (p : Page) (v off n : ℕ) → 16 ≤ off → copy_out (set_pd_lower p v) off n ≡ copy_out p off n
unfolding copy_out set_pd_lower
copy_out-set_pd_lower p v off n h = read_bytes-write_at-Apart 2 p.buf 8 v off n (inl (omega arith))

pub length-set_pd_lower : (p : Page) (v : ℕ) → length (set_pd_lower p v).buf ≡ length p.buf
unfolding set_pd_lower
length-set_pd_lower p v = length-write_at 2 p.buf 8 v

pub slot_entry-set_pd_upper :
    (p : Page) (s v : ℕ) → get_slot_entry (set_pd_upper p v) s ≡ get_slot_entry p s
unfolding get_slot_entry set_pd_upper
slot_entry-set_pd_upper p s v =
    entry_path (read_at-write_at-Apart 2 2 p.buf 10 (slot_offset s) v (inl (omega arith)))
      (read_at-write_at-Apart 2 2 p.buf 10 (slot_offset s + 2) v (inl (omega arith)))

pub copy_out-set_pd_upper :
    (p : Page) (v off n : ℕ) → 16 ≤ off → copy_out (set_pd_upper p v) off n ≡ copy_out p off n
unfolding copy_out set_pd_upper
copy_out-set_pd_upper p v off n h = read_bytes-write_at-Apart 2 p.buf 10 v off n (inl (omega arith))

pub length-set_pd_upper : (p : Page) (v : ℕ) → length (set_pd_upper p v).buf ≡ length p.buf
unfolding set_pd_upper
length-set_pd_upper p v = length-write_at 2 p.buf 10 v

pub slot_entry-copy_in :
    (p : Page) (s off : ℕ) (bs : List ℕ)
    → slot_offset s + 4 ≤ off
    → get_slot_entry (copy_in p off bs) s ≡ get_slot_entry p s
unfolding get_slot_entry copy_in
slot_entry-copy_in p s off bs h =
    entry_path (read_at-write_bytes-Apart 2 p.buf bs off (slot_offset s) (inr (omega arith)))
      (read_at-write_bytes-Apart 2 p.buf bs off (slot_offset s + 2) (inr (omega arith)))

lt_or_gt : (m n : ℕ) → m ≢ n → (m < n) ⊎ (n < m)
lt_or_gt m n h = grind arith

pub slot_entry-set_slot_entry_ne :
    (p : Page) (s j : ℕ) (e : SlotEntry)
    → s ≢ j
    → get_slot_entry (set_slot_entry p s e) j ≡ get_slot_entry p j
unfolding get_slot_entry set_slot_entry
slot_entry-set_slot_entry_ne p s j e ne = elim (lt_or_gt s j ne) [
  | inl lt ↦
      entry_path
        (read_at-write_at-Apart 2 2 _ (slot_offset s + 2) (slot_offset j) e.length
            (inl (omega arith))
          ∙ read_at-write_at-Apart 2 2 p.buf (slot_offset s) (slot_offset j) e.offset
              (inl (omega arith)))
        (read_at-write_at-Apart 2 2 _ (slot_offset s + 2) (slot_offset j + 2) e.length
            (inl (omega arith))
          ∙ read_at-write_at-Apart 2 2 p.buf (slot_offset s) (slot_offset j + 2) e.offset
              (inl (omega arith)))
  | inr gt ↦
      entry_path
        (read_at-write_at-Apart 2 2 _ (slot_offset s + 2) (slot_offset j) e.length
            (inr (omega arith))
          ∙ read_at-write_at-Apart 2 2 p.buf (slot_offset s) (slot_offset j) e.offset
              (inr (omega arith)))
        (read_at-write_at-Apart 2 2 _ (slot_offset s + 2) (slot_offset j + 2) e.length
            (inr (omega arith))
          ∙ read_at-write_at-Apart 2 2 p.buf (slot_offset s) (slot_offset j + 2) e.offset
              (inr (omega arith)))
]

pub slot_entry-set_slot_entry_self :
    (p : Page) (s : ℕ) (e : SlotEntry)
    → slot_offset s + 4 ≤ length p.buf
    → e.offset < 2 ^ 16
    → e.length < 2 ^ 16
    → get_slot_entry (set_slot_entry p s e) s ≡ e
unfolding get_slot_entry set_slot_entry
slot_entry-set_slot_entry_self p s e h ho hl =
    entry_path
      (read_at-write_at-Apart 2 2 _ (slot_offset s + 2) (slot_offset s) e.length (inr (omega arith))
        ∙ read_at-write_at_self 2 p.buf (slot_offset s) e.offset (omega arith) ho)
      (read_at-write_at_self 2 _ (slot_offset s + 2) e.length
        (omega (arith, length-write_at 2 p.buf (slot_offset s) e.offset)) hl)

pub copy_out-set_slot_entry :
    (p : Page) (s off n : ℕ) (e : SlotEntry)
    → slot_offset s + 4 ≤ off
    → copy_out (set_slot_entry p s e) off n ≡ copy_out p off n
unfolding copy_out set_slot_entry
copy_out-set_slot_entry p s off n e h =
    read_bytes-write_at-Apart 2 _ (slot_offset s + 2) e.length off n (inl (omega arith))
    ∙ read_bytes-write_at-Apart 2 p.buf (slot_offset s) e.offset off n (inl (omega arith))

pub copy_out-copy_in_apart :
    (p : Page) (off j n : ℕ) (bs : List ℕ)
    → off + length bs ≤ j
    → copy_out (copy_in p off bs) j n ≡ copy_out p j n
unfolding copy_out copy_in
copy_out-copy_in_apart p off j n bs h = read_bytes-write_bytes-Apart bs p.buf off j n (inl h)

pub copy_out-copy_in_self :
    (p : Page) (off : ℕ) (bs : List ℕ)
    → off + length bs ≤ length p.buf
    → copy_out (copy_in p off bs) off (length bs) ≡ bs
unfolding copy_out copy_in
copy_out-copy_in_self p off bs h = read_bytes-write_bytes_self bs p.buf off h

pub length-set_slot_entry :
    (p : Page) (s : ℕ) (e : SlotEntry) → length (set_slot_entry p s e).buf ≡ length p.buf
unfolding set_slot_entry
length-set_slot_entry p s e =
    length-write_at 2 _ (slot_offset s + 2) e.length
    ∙ length-write_at 2 p.buf (slot_offset s) e.offset

pub length-copy_in :
    (p : Page) (off : ℕ) (bs : List ℕ) → length (copy_in p off bs).buf ≡ length p.buf
unfolding copy_in
length-copy_in p off bs = length-write_bytes bs p.buf off

pub ruleset field_laws = (
  slot_count-set_page_id, slot_count-set_page_type, slot_count-set_pd_lower,
  slot_count-set_pd_upper, pd_lower-set_page_id, pd_lower-set_page_type, pd_lower-set_slot_count,
  pd_lower-set_pd_upper, pd_upper-set_page_id, pd_upper-set_page_type, pd_upper-set_slot_count,
  pd_upper-set_pd_lower, slot_count-set_slot_entry, pd_lower-set_slot_entry,
  pd_upper-set_slot_entry, slot_entry-set_page_id, length-set_page_id, slot_entry-set_page_type,
  length-set_page_type, slot_entry-set_slot_count, length-set_slot_count, slot_entry-set_pd_lower,
  length-set_pd_lower, slot_entry-set_pd_upper, length-set_pd_upper, length-set_slot_entry,
  length-copy_in,
)
