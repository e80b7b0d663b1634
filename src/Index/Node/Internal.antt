-- ===== src/Index/Node/Internal.antt =====
-- btree.cpp: SerializeInternal and DeserializeInternal.
use flintdb.Prelude.{
  ℕ, ◌+◌, ◌*◌, ◌^◌, ◌<◌, ◌≤◌, ◌≡◌, refl, ap, ◌∙◌, List, [], ◌∷◌, arith, length, All,
}
use flintdb.Prelude.Int.{ℤ, InRange64, pattern64, value64, pattern64-lt, value64-pattern64}
use flintdb.Bytes.{read_at, write_at, length-write_at, read_at-write_at_self}
use flintdb.Storage.Page.{page_size}
use flintdb.Index.Node.{
  internal_max_keys, type_internal, InternalNode, start_node, write_children, read_children,
  serialize_internal, deserialize_internal,
}
use flintdb.Index.Node.Fields.{read_before, length-start_node, start_node-page_id, start_node-count}
use flintdb.Index.Node.RoundTrip.{cons_pair}

abbrev IsPageId : ℕ → Type 0
IsPageId child = child < 2 ^ 32

abbrev write_child : List ℕ → ℕ → ℤ → ℕ → List ℕ
write_child buf off key child = write_at 4 (write_at 8 buf off (pattern64 key)) (off + 8) child

length-write_child :
    (buf : List ℕ) (off : ℕ) (key : ℤ) (child : ℕ)
    → length (write_child buf off key child) ≡ length buf
length-write_child buf off key child =
    length-write_at 4 (write_at 8 buf off (pattern64 key)) (off + 8) child
    ∙ length-write_at 8 buf off (pattern64 key)

-- The children stand after what was written before them.
read_at-write_children :
    (u j : ℕ) (buf : List ℕ) (off : ℕ) (keys : List ℤ) (children : List ℕ)
    → j + u ≤ off
    → read_at u (write_children buf off keys children) j ≡ read_at u buf j
unfolding write_children
read_at-write_children u j buf off [] children h = refl
read_at-write_children u j buf off (k ∷ ks) [] h = refl
read_at-write_children u j buf off (k ∷ ks) (c ∷ cs) h =
    read_at-write_children u j (write_child buf off k c) (off + 12) ks cs (omega arith)
    ∙ read_before u 4 (write_at 8 buf off (pattern64 k)) (off + 8) j c (omega arith)
    ∙ read_before u 8 buf off j (pattern64 k) h

child-key :
    (buf : List ℕ) (off : ℕ) (k : ℤ) (c : ℕ)
    → off + 12 ≤ length buf
    → InRange64 k
    → value64 (read_at 8 (write_child buf off k c) off) ≡ k
child-key buf off k c room h =
    ap value64 (
      read_before 8 4 (write_at 8 buf off (pattern64 k)) (off + 8) off c (omega arith)
      ∙ read_at-write_at_self 8 buf off (pattern64 k) (omega (arith, room))
          (omega (arith, pattern64-lt k h)))
    ∙ value64-pattern64 k h

child-child :
    (buf : List ℕ) (off : ℕ) (k : ℤ) (c : ℕ)
    → off + 12 ≤ length buf
    → c < 2 ^ 32
    → read_at 4 (write_child buf off k c) (off + 8) ≡ c
child-child buf off k c room h =
    read_at-write_at_self 4 (write_at 8 buf off (pattern64 k)) (off + 8) c
      (omega (arith, room, length-write_at 8 buf off (pattern64 k))) (omega (arith, h))

read_children-write_children :
    (buf : List ℕ) (off : ℕ) (keys : List ℤ) (children : List ℕ)
    → length keys ≡ length children
    → off + 12 * length keys ≤ length buf
    → All InRange64 keys
    → All IsPageId children
    → read_children (write_children buf off keys children) off (length keys) ≡ (keys, children)
unfolding read_children write_children
read_children-write_children buf off [] [] e room ks cs = refl
read_children-write_children buf off [] (c ∷ children) e room ks cs = absurd (omega (arith, e))
read_children-write_children buf off (k ∷ keys) [] e room ks cs = absurd (omega (arith, e))
read_children-write_children buf off (k ∷ keys) (c ∷ children) e room ks cs =
    let written = write_child buf off k c in
    let here : off + 12 ≤ length buf = omega (arith, room) in
    let after : (u j : ℕ)
        → j + u ≤ off + 12
        → read_at u (write_children written (off + 12) keys children) j ≡ read_at u written j =
      λ u j h. read_at-write_children u j written (off + 12) keys children h in
    cons_pair (ap value64 (after 8 off (omega arith)) ∙ child-key buf off k c here ks.0)
      (after 4 (off + 8) (omega arith) ∙ child-child buf off k c here cs.0)
      (read_children-write_children written (off + 12) keys children (omega (arith, e))
        (omega (arith, room, length-write_child buf off k c)) ks.1 cs.1)

-- An internal node that fits on a page, with fields in the ranges of their types.
pub record InternalFits (page_id : ℕ) (keys : List ℤ) (child : ℕ) (children : List ℕ) : Type 0 where
  pub page_fits : page_id < 2 ^ 32
  pub first_fits : child < 2 ^ 32
  pub paired : length keys ≡ length children
  pub room : length keys ≤ internal_max_keys
  pub keys_fit : All InRange64 keys
  pub children_fit : All IsPageId children

module _ (page_id : ℕ) (keys : List ℤ) (child : ℕ) (children : List ℕ)
    (fits : InternalFits page_id keys child children) where
  node : InternalNode
  node = record { page_id = page_id; keys = keys; children = child ∷ children }

  started : List ℕ
  started = start_node page_id type_internal (length keys)

  first : List ℕ
  first = write_at 4 (start_node page_id type_internal (length keys)) 16 child

  length-first : length first ≡ page_size
  unfolding first started
  length-first =
      length-write_at 4 started 16 child ∙ length-start_node page_id type_internal (length keys)

  field_before : (u j : ℕ) → j + u ≤ 20 → read_at u (serialize_internal node) j ≡ read_at u first j
  unfolding serialize_internal first node
  field_before u j h = read_at-write_children u j first 20 keys children h

  internal-count : read_at 2 (serialize_internal node) 6 ≡ length keys
  unfolding first started
  internal-count =
      field_before 2 6 (omega arith)
      ∙ read_before 2 4 started 16 6 child (omega arith)
      ∙ start_node-count page_id type_internal (length keys) (omega (arith, fits.room))

  internal-page_id : read_at 4 (serialize_internal node) 0 ≡ page_id
  unfolding first started
  internal-page_id =
      field_before 4 0 (omega arith)
      ∙ read_before 4 4 started 16 0 child (omega arith)
      ∙ start_node-page_id page_id type_internal (length keys) fits.page_fits

  internal-child : read_at 4 (serialize_internal node) 16 ≡ child
  unfolding first started
  internal-child =
      field_before 4 16 (omega arith)
      ∙ read_at-write_at_self 4 started 16 child
          (omega (arith, length-start_node page_id type_internal (length keys)))
          (omega (arith, fits.first_fits))

  internal-children : read_children (serialize_internal node) 20 (length keys) ≡ (keys, children)
  unfolding serialize_internal first node
  internal-children =
      read_children-write_children first 20 keys children fits.paired
        (omega (arith, fits.room, length-first)) fits.keys_fit fits.children_fit

  deserialized :
      deserialize_internal (serialize_internal node)
      ≡ record { page_id = page_id; keys = keys; children = child ∷ children }
  unfolding deserialize_internal
  deserialized = rw (internal-count, internal-page_id, internal-child, internal-children) refl

-- DeserializeInternal takes back a node that SerializeInternal wrote, if it has one child more than keys, at
-- most kInternalMaxKeys keys, and fields in the ranges of their types.
pub deserialize_internal-serialize_internal :
    (page_id : ℕ) (keys : List ℤ) (child : ℕ) (children : List ℕ)
    → InternalFits page_id keys child children
    → deserialize_internal (
        serialize_internal (record { page_id = page_id; keys = keys; children = child ∷ children }))
      ≡ record { page_id = page_id; keys = keys; children = child ∷ children }
unfolding node
deserialize_internal-serialize_internal page_id keys child children fits =
    deserialized page_id keys child children fits
