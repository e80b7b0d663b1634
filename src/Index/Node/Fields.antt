-- ===== src/Index/Node/Fields.antt =====
-- btree.cpp: reading back the fields and the entries of a node that was written.
use flintdb.Prelude.{
  ℕ, ◌+◌, ◌%◌, ◌^◌, ◌<◌, ◌≤◌, ◌≡◌, inr, refl, ap, ◌∙◌, List, [], ◌∷◌, arith, length,
  length-replicate,
}
use flintdb.Prelude.Int.{ℤ, InRange64, pattern64, value64, pattern64-lt, value64-pattern64}
use flintdb.Bytes.{
  read_at, write_at, length-write_at, read_at-write_at_self, read_at-write_at-Apart,
}
use flintdb.Storage.Page.{page_size, zeroed}
use flintdb.Txn.HeapFile.{Rid}
use flintdb.Index.Node.{leaf_entry_size, start_node, write_entry, write_entries}

-- A field before a place where another is written.
pub read_before :
    (u w : ℕ) (buf : List ℕ) (off j v : ℕ)
    → j + u ≤ off
    → read_at u (write_at w buf off v) j ≡ read_at u buf j
read_before u w buf off j v h = read_at-write_at-Apart u w buf off j v (inr h)

pub length-zeroed : length zeroed ≡ page_size
unfolding zeroed
length-zeroed = length-replicate {A = ℕ} page_size 0

pub length-start_node :
    (page_id kind count : ℕ) → length (start_node page_id kind count) ≡ page_size
unfolding start_node
length-start_node page_id kind count =
    length-write_at 2 (write_at 2 (write_at 4 zeroed 0 page_id) 4 kind) 6 (count % 2 ^ 16)
    ∙ length-write_at 2 (write_at 4 zeroed 0 page_id) 4 kind
    ∙ length-write_at 4 zeroed 0 page_id
    ∙ length-zeroed

pub start_node-page_id :
    (page_id kind count : ℕ)
    → page_id < 2 ^ 32
    → read_at 4 (start_node page_id kind count) 0 ≡ page_id
unfolding start_node
start_node-page_id page_id kind count h =
    read_before 4 2 (write_at 2 (write_at 4 zeroed 0 page_id) 4 kind) 6 0 (count % 2 ^ 16)
      (omega arith)
    ∙ read_before 4 2 (write_at 4 zeroed 0 page_id) 4 0 kind (omega arith)
    ∙ read_at-write_at_self 4 zeroed 0 page_id (omega (arith, length-zeroed)) (omega (arith, h))

pub start_node-count :
    (page_id kind count : ℕ) → count < 2 ^ 16 → read_at 2 (start_node page_id kind count) 6 ≡ count
unfolding start_node
start_node-count page_id kind count h =
    read_at-write_at_self 2 (write_at 2 (write_at 4 zeroed 0 page_id) 4 kind) 6 (count % 2 ^ 16)
      (omega (
        arith,
        length-write_at 2 (write_at 4 zeroed 0 page_id) 4 kind,
        length-write_at 4 zeroed 0 page_id,
        length-zeroed,
      ))
      (omega arith)
    ∙ omega (arith, h)

-- The values that a RID's fields can hold.
pub record RidFits (value : Rid) : Type 0 where
  pub page_fits : value.page_id < 2 ^ 32
  pub slot_fits : value.slot_id < 2 ^ 16

pub length-write_entry :
    (b : List ℕ) (i : ℕ) (key : ℤ) (value : Rid) → length (write_entry b i key value) ≡ length b
length-write_entry b i key value =
    length-write_at 2 (write_at 4 (write_at 8 b i (pattern64 key)) (i + 8) value.page_id) (i + 12)
      value.slot_id
    ∙ length-write_at 4 (write_at 8 b i (pattern64 key)) (i + 8) value.page_id
    ∙ length-write_at 8 b i (pattern64 key)

pub length-write_entries :
    (buf : List ℕ) (off : ℕ) (keys : List ℤ) (values : List Rid)
    → length (write_entries buf off keys values) ≡ length buf
unfolding write_entries
length-write_entries buf off [] values = refl
length-write_entries buf off (k ∷ ks) [] = refl
length-write_entries buf off (k ∷ ks) (v ∷ vs) =
    length-write_entries (write_entry buf off k v) (off + leaf_entry_size) ks vs
    ∙ length-write_entry buf off k v

-- The entries stand after what was written before them.
pub read_at-write_entries :
    (u j : ℕ) (buf : List ℕ) (off : ℕ) (keys : List ℤ) (values : List Rid)
    → j + u ≤ off
    → read_at u (write_entries buf off keys values) j ≡ read_at u buf j
unfolding write_entries
read_at-write_entries u j buf off [] values h = refl
read_at-write_entries u j buf off (k ∷ ks) [] h = refl
read_at-write_entries u j buf off (k ∷ ks) (v ∷ vs) h =
    read_at-write_entries u j (write_entry buf off k v) (off + leaf_entry_size) ks vs (omega arith)
    ∙ read_before u 2 (write_at 4 (write_at 8 buf off (pattern64 k)) (off + 8) v.page_id) (off + 12)
        j v.slot_id (omega arith)
    ∙ read_before u 4 (write_at 8 buf off (pattern64 k)) (off + 8) j v.page_id (omega arith)
    ∙ read_before u 8 buf off j (pattern64 k) h

module _ (buf : List ℕ) (off : ℕ) (k : ℤ) (v : Rid)
    (room : off + leaf_entry_size ≤ length buf) where
  keyed : List ℕ
  keyed = write_at 8 buf off (pattern64 k)

  paged : List ℕ
  paged = write_at 4 (write_at 8 buf off (pattern64 k)) (off + 8) v.page_id

  length-keyed : length keyed ≡ length buf
  unfolding keyed
  length-keyed = length-write_at 8 buf off (pattern64 k)

  length-paged : length paged ≡ length buf
  unfolding paged keyed
  length-paged = length-write_at 4 keyed (off + 8) v.page_id ∙ length-keyed

  pub entry-key : InRange64 k → value64 (read_at 8 (write_entry buf off k v) off) ≡ k
  unfolding paged keyed
  entry-key h =
      ap value64 (
        read_before 8 2 paged (off + 12) off v.slot_id (omega arith)
        ∙ read_before 8 4 keyed (off + 8) off v.page_id (omega arith)
        ∙ read_at-write_at_self 8 buf off (pattern64 k) (omega (arith, room))
            (omega (arith, pattern64-lt k h)))
      ∙ value64-pattern64 k h

  pub entry-page_id : RidFits v → read_at 4 (write_entry buf off k v) (off + 8) ≡ v.page_id
  unfolding paged keyed
  entry-page_id h =
      read_before 4 2 paged (off + 12) (off + 8) v.slot_id (omega arith)
      ∙ read_at-write_at_self 4 keyed (off + 8) v.page_id (omega (arith, room, length-keyed))
          (omega (arith, h.page_fits))

  pub entry-slot_id : RidFits v → read_at 2 (write_entry buf off k v) (off + 12) ≡ v.slot_id
  unfolding paged keyed
  entry-slot_id h =
      read_at-write_at_self 2 paged (off + 12) v.slot_id (omega (arith, room, length-paged))
        (omega (arith, h.slot_fits))
