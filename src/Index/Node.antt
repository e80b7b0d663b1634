-- ===== src/Index/Node.antt =====
-- src/index/btree.cpp: the nodes of the tree, their bytes, and where a node is split. A page is all zero
-- before a node is written to it.
pub mod Split
pub mod Rebalance
pub mod Fields
pub mod RoundTrip
pub mod Internal
use flintdb.Prelude.{
  ℕ, zero, suc, ◌+◌, ◌-◌, ◌*◌, ◌/◌, ◌%◌, ◌^◌, ◌==◌, Bool, true, false, ◌&&◌, not, Option, none,
  some, List, [], ◌∷◌, length, get_or, ltb, leb, if◌then◌else◌,
}
use flintdb.Prelude.Int.{ℤ, pos, pattern64, value64, int_eq, int_lt}
use flintdb.Bytes.{read_at, write_at}
use flintdb.Storage.Page.{Page, page_size, zeroed}
use flintdb.Txn.HeapFile.{Rid}

-- kBTreeHeaderSize, kLeafEntrySize, kInternalKeySize and kInternalChildSize.
abbrev pub node_header_size : ℕ
node_header_size = 16

abbrev pub leaf_entry_size : ℕ
leaf_entry_size = 14

abbrev pub internal_key_size : ℕ
internal_key_size = 8

abbrev pub internal_child_size : ℕ
internal_child_size = 4

abbrev pub leaf_max_keys : ℕ
leaf_max_keys = (page_size - node_header_size) / leaf_entry_size

abbrev pub leaf_min_keys : ℕ
leaf_min_keys = leaf_max_keys / 2

abbrev pub internal_max_keys : ℕ
internal_max_keys =
    (page_size - node_header_size - internal_child_size) / (internal_key_size + internal_child_size)

abbrev pub internal_min_keys : ℕ
internal_min_keys = internal_max_keys / 2

-- PageType's kBTreeInternal, kBTreeLeaf and kBTreeHeader.
abbrev pub type_internal : ℕ
type_internal = 3

abbrev pub type_leaf : ℕ
type_leaf = 2

abbrev pub type_header : ℕ
type_header = 4

abbrev pub no_page_id : ℕ
no_page_id = 2 ^ 32 - 1

abbrev pub root_header_page_id : ℕ
root_header_page_id = 0

pub record LeafNode : Type 0 where
  pub page_id : ℕ
  pub next_leaf : ℕ
  pub keys : List ℤ
  pub values : List Rid

-- `children[0]` is the first child; the others stand beside the keys.
pub record InternalNode : Type 0 where
  pub page_id : ℕ
  pub keys : List ℤ
  pub children : List ℕ

unfoldable pub read_page_type : List ℕ → ℕ
read_page_type buf = read_at 2 buf 4

-- The first fields of a node, on a page of zeros.
unfoldable pub start_node : ℕ → ℕ → ℕ → List ℕ
start_node page_id kind count =
    write_at 2 (write_at 2 (write_at 4 zeroed 0 page_id) 4 kind) 6 (count % 2 ^ 16)

abbrev pub write_entry : List ℕ → ℕ → ℤ → Rid → List ℕ
write_entry buf off key value =
    write_at 2 (write_at 4 (write_at 8 buf off (pattern64 key)) (off + 8) value.page_id) (off + 12)
      value.slot_id

-- SerializeLeaf's loop. A leaf has as many values as keys.
unfoldable pub write_entries : List ℕ → ℕ → List ℤ → List Rid → List ℕ
write_entries buf off [] values = buf
write_entries buf off (key ∷ keys) [] = buf
write_entries buf off (key ∷ keys) (value ∷ values) =
    write_entries (write_entry buf off key value) (off + leaf_entry_size) keys values

unfoldable pub serialize_leaf : LeafNode → List ℕ
serialize_leaf leaf =
    write_entries
      (write_at 4 (start_node leaf.page_id type_leaf (length leaf.keys)) 8 leaf.next_leaf)
      node_header_size leaf.keys leaf.values

unfoldable pub read_entries : List ℕ → ℕ → ℕ → List ℤ × List Rid
read_entries buf off zero = ([], [])
read_entries buf off (suc n) =
    let (keys, values) = read_entries buf (off + leaf_entry_size) n in
    (
      value64 (read_at 8 buf off) ∷ keys,
      record { page_id = read_at 4 buf (off + 8); slot_id = read_at 2 buf (off + 12) } ∷ values,
    )

unfoldable pub deserialize_leaf : List ℕ → LeafNode
deserialize_leaf buf =
    let (keys, values) = read_entries buf node_header_size (read_at 2 buf 6) in
    record { page_id = read_at 4 buf 0; next_leaf = read_at 4 buf 8; keys = keys; values = values }

-- SerializeInternal's loop, over the keys and the children after the first. An internal node has one child
-- more than keys.
unfoldable pub write_children : List ℕ → ℕ → List ℤ → List ℕ → List ℕ
write_children buf off [] children = buf
write_children buf off (key ∷ keys) [] = buf
write_children buf off (key ∷ keys) (child ∷ children) =
    write_children (write_at 4 (write_at 8 buf off (pattern64 key)) (off + 8) child) (off + 12) keys
      children

unfoldable pub serialize_internal : InternalNode → List ℕ
serialize_internal node = elim node.children [
  | [] ↦ start_node node.page_id type_internal (length node.keys)
  | child ∷ children ↦
      write_children
        (write_at 4 (start_node node.page_id type_internal (length node.keys)) node_header_size
          child)
        (node_header_size + internal_child_size) node.keys children
]

unfoldable pub read_children : List ℕ → ℕ → ℕ → List ℤ × List ℕ
read_children buf off zero = ([], [])
read_children buf off (suc n) =
    let (keys, children) = read_children buf (off + 12) n in
    (value64 (read_at 8 buf off) ∷ keys, read_at 4 buf (off + 8) ∷ children)

unfoldable pub deserialize_internal : List ℕ → InternalNode
deserialize_internal buf =
    let (keys, children) =
      read_children buf (node_header_size + internal_child_size) (read_at 2 buf 6) in
    record {
      page_id = read_at 4 buf 0;
      keys = keys;
      children = read_at 4 buf node_header_size ∷ children;
    }

unfoldable pub serialize_header : ℕ → List ℕ
serialize_header root =
    write_at 4 (write_at 2 (write_at 4 zeroed 0 root_header_page_id) 4 type_header) node_header_size
      root

unfoldable pub deserialize_header_root_page_id : List ℕ → ℕ
deserialize_header_root_page_id buf = read_at 4 buf node_header_size

-- `keys[i] != keys[i - 1]`
unfoldable pub changes_at : List ℤ → ℕ → Bool
changes_at keys i = not (int_eq (get_or keys i (pos 0)) (get_or keys (i - 1) (pos 0)))

-- The first loop of FindSplitBoundary, over this many places from one on.
unfoldable pub boundary_from : List ℤ → ℕ → ℕ → Option ℕ
boundary_from keys i zero = none
boundary_from keys i (suc n) =
    let rest = boundary_from keys (i + 1) n in if changes_at keys i then some i else rest

-- The second loop, from a place down to 1.
unfoldable pub boundary_down : List ℤ → ℕ → Option ℕ
boundary_down keys zero = none
boundary_down keys (suc i) =
    let rest = boundary_down keys i in if changes_at keys (suc i) then some (suc i) else rest

unfoldable pub find_split_boundary : List ℤ → ℕ → ℕ
find_split_boundary keys naive_mid = elim (boundary_from keys naive_mid (length keys - naive_mid)) [
  | some i ↦ i
  | none ↦ elim (boundary_down keys naive_mid) [ some i ↦ i | none ↦ naive_mid ]
]

-- std::upper_bound: the first key that is greater, on keys in order.
unfoldable pub upper_bound : List ℤ → ℤ → ℕ
upper_bound [] key = 0
upper_bound (k ∷ ks) key = let rest = upper_bound ks key in if int_lt key k then 0 else suc rest

-- `if (ideal < min_split) ideal = min_split; if (ideal > max_split) ideal = max_split;`
abbrev pub clamp : ℕ → ℕ → ℕ → ℕ
clamp low high ideal =
    let raised = if ltb ideal low then low else ideal in if ltb high raised then high else raised

-- FindRebalanceSplit's loop over the distance from the ideal place, with fuel.
unfoldable pub rebalance_from : ℕ → List ℤ → ℕ → ℕ → ℕ → ℕ → Option ℕ
rebalance_from zero keys low high ideal offset = none
rebalance_from (suc fuel) keys low high ideal offset =
    let rest = rebalance_from fuel keys low high ideal (offset + 1) in
    let above = leb (ideal + offset) high in
    let below = leb offset (ideal - low) in
    if above && changes_at keys (ideal + offset)
    then some (ideal + offset)
    else if below && changes_at keys (ideal - offset)
    then some (ideal - offset)
    else if above
    then rest
    else if below
    then rest
    else none

unfoldable pub find_rebalance_split : List ℤ → ℕ → ℕ → ℕ → Option ℕ
find_rebalance_split keys low high ideal =
    let at = clamp low high ideal in
    if changes_at keys at then some at else rebalance_from (suc high) keys low high at 1
