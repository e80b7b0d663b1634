-- ===== src/Index/Node/RoundTrip.antt =====
-- btree.cpp: SerializeLeaf and DeserializeLeaf.
use flintdb.Prelude.{
  ℕ, ◌+◌, ◌*◌, ◌^◌, ◌<◌, ◌≤◌, ◌≡◌, refl, ap, ap₂, ◌∙◌, List, [], ◌∷◌, arith, length, All,
}
use flintdb.Prelude.Int.{ℤ, InRange64, value64}
use flintdb.Bytes.{read_at, write_at, length-write_at, read_at-write_at_self}
use flintdb.Storage.Page.{page_size}
use flintdb.Txn.HeapFile.{Rid}
use flintdb.Index.Node.{
  leaf_entry_size, leaf_max_keys, node_header_size, type_leaf, LeafNode, start_node, write_entry,
  write_entries, read_entries, serialize_leaf, deserialize_leaf,
}
use flintdb.Index.Node.Fields.{
  read_before, length-start_node, start_node-page_id, start_node-count, RidFits, length-write_entry,
  read_at-write_entries, entry-key, entry-page_id, entry-slot_id,
}

pub cons_pair {ℓ κ} :
    {A : Type ℓ} {B : Type κ} {a k : A} {b v : B} {p : List A × List B} {ks : List A} {vs : List B}
    → a ≡ k
    → b ≡ v
    → p ≡ (ks, vs)
    → ◌≡◌ {A = List A × List B} (a ∷ p.0, b ∷ p.1) (k ∷ ks, v ∷ vs)
cons_pair e f g = rw (e, f, g) refl

rid_eta :
    (v : Rid) (p s : ℕ)
    → p ≡ v.page_id
    → s ≡ v.slot_id
    → ◌≡◌ {A = Rid} (record { page_id = p; slot_id = s }) v
rid_eta v p s e f = ap₂ (λ a b. record { page_id = a; slot_id = b }) e f

read_entries-write_entries :
    (buf : List ℕ) (off : ℕ) (keys : List ℤ) (values : List Rid)
    → length keys ≡ length values
    → off + leaf_entry_size * length keys ≤ length buf
    → All InRange64 keys
    → All RidFits values
    → read_entries (write_entries buf off keys values) off (length keys) ≡ (keys, values)
unfolding read_entries write_entries
read_entries-write_entries buf off [] [] e room ks vs = refl
read_entries-write_entries buf off [] (v ∷ values) e room ks vs = absurd (omega (arith, e))
read_entries-write_entries buf off (k ∷ keys) [] e room ks vs = absurd (omega (arith, e))
read_entries-write_entries buf off (k ∷ keys) (v ∷ values) e room ks vs =
    let entry = write_entry buf off k v in
    let rest =
      read_entries-write_entries entry (off + leaf_entry_size) keys values (omega (arith, e))
        (omega (arith, room, length-write_entry buf off k v)) ks.1 vs.1 in
    let here : off + leaf_entry_size ≤ length buf = omega (arith, room) in
    let after : (u j : ℕ)
        → j + u ≤ off + leaf_entry_size
        → read_at u (write_entries entry (off + leaf_entry_size) keys values) j
          ≡ read_at u entry j =
      λ u j h. read_at-write_entries u j entry (off + leaf_entry_size) keys values h in
    cons_pair (ap value64 (after 8 off (omega arith)) ∙ entry-key buf off k v here ks.0)
      (rid_eta v _ _ (after 4 (off + 8) (omega arith) ∙ entry-page_id buf off k v here vs.0)
        (after 2 (off + 12) (omega arith) ∙ entry-slot_id buf off k v here vs.0))
      rest

-- A leaf that fits on a page, with fields in the ranges of their types.
pub record LeafFits (leaf : LeafNode) : Type 0 where
  pub page_fits : leaf.page_id < 2 ^ 32
  pub next_fits : leaf.next_leaf < 2 ^ 32
  pub paired : length leaf.keys ≡ length leaf.values
  pub room : length leaf.keys ≤ leaf_max_keys
  pub keys_fit : All InRange64 leaf.keys
  pub values_fit : All RidFits leaf.values

module _ (leaf : LeafNode) (fits : LeafFits leaf) where
  started : List ℕ
  started = start_node leaf.page_id type_leaf (length leaf.keys)

  linked : List ℕ
  linked = write_at 4 (start_node leaf.page_id type_leaf (length leaf.keys)) 8 leaf.next_leaf

  length-linked : length linked ≡ page_size
  unfolding linked started
  length-linked =
      length-write_at 4 started 8 leaf.next_leaf
      ∙ length-start_node leaf.page_id type_leaf (length leaf.keys)

  field_before : (u j : ℕ) → j + u ≤ 16 → read_at u (serialize_leaf leaf) j ≡ read_at u linked j
  unfolding serialize_leaf linked
  field_before u j h = read_at-write_entries u j linked 16 leaf.keys leaf.values h

  leaf-count : read_at 2 (serialize_leaf leaf) 6 ≡ length leaf.keys
  unfolding linked started
  leaf-count =
      field_before 2 6 (omega arith)
      ∙ read_before 2 4 started 8 6 leaf.next_leaf (omega arith)
      ∙ start_node-count leaf.page_id type_leaf (length leaf.keys) (omega (arith, fits.room))

  leaf-page_id : read_at 4 (serialize_leaf leaf) 0 ≡ leaf.page_id
  unfolding linked started
  leaf-page_id =
      field_before 4 0 (omega arith)
      ∙ read_before 4 4 started 8 0 leaf.next_leaf (omega arith)
      ∙ start_node-page_id leaf.page_id type_leaf (length leaf.keys) fits.page_fits

  leaf-next_leaf : read_at 4 (serialize_leaf leaf) 8 ≡ leaf.next_leaf
  unfolding linked started
  leaf-next_leaf =
      field_before 4 8 (omega arith)
      ∙ read_at-write_at_self 4 started 8 leaf.next_leaf
          (omega (arith, length-start_node leaf.page_id type_leaf (length leaf.keys)))
          (omega (arith, fits.next_fits))

  leaf-entries :
      read_entries (serialize_leaf leaf) node_header_size (length leaf.keys)
      ≡ (leaf.keys, leaf.values)
  unfolding serialize_leaf linked
  leaf-entries =
      read_entries-write_entries linked node_header_size leaf.keys leaf.values fits.paired
        (omega (arith, fits.room, length-linked)) fits.keys_fit fits.values_fit

-- DeserializeLeaf takes back a leaf that SerializeLeaf wrote, if it has a value for each key, at most
-- kLeafMaxKeys of them, and fields in the ranges of their types.
pub deserialize_leaf-serialize_leaf :
    (leaf : LeafNode) → LeafFits leaf → deserialize_leaf (serialize_leaf leaf) ≡ leaf
unfolding deserialize_leaf
deserialize_leaf-serialize_leaf leaf fits =
    rw
      (
        leaf-count leaf fits,
        leaf-page_id leaf fits,
        leaf-next_leaf leaf fits,
        leaf-entries leaf fits,
      )
      refl
